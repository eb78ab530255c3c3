-- ===== src/Mutations/Tests.antt =====
-- Runs of the store of app/oms/order_mutations.py, and the theorems at them.
use trade_bot.Prelude.{◌≤◌, none, some, List, [], ◌∷◌, ◌≡◌, refl, pos, is_blank, strip, number_text}
use trade_bot.Prelude.Decimal.{finite, dec_lt, dec_eq}
use trade_bot.Prelude.Clock.{aware}
use trade_bot.Oms.Tests.{open_row}
use trade_bot.Mutations.Tables.{cancel, replace, succeeded, Mutation, Db, find_mutation}
use trade_bot.Mutations.Store.{
  Request, request, validate_request, same_request, claim_started, set_state, mark_outbox_published,
}
use trade_bot.Mutations.Steps.{MutationCall, ask, claim, settle, published, after, run}
use trade_bot.Mutations.Active.{IsSound, run_one_active}
use trade_bot.Mutations.Claims.{grants, claimed_once}

abbrev pub cancelling : Request
cancelling = record {
  mutation_id = "m1";
  intent_id = "i1";
  kind = cancel;
  target_limit_price = none;
  baseline_limit_price = finite (pos 5) (pos 0);
  broker_order_id = "b1";
}

abbrev pub replacing : Request
replacing = record (cancelling) {
  mutation_id = "m2";
  kind = replace;
  target_limit_price = some (finite (pos 6) (pos 0));
}

abbrev pub empty_db : Db
empty_db = record {
  orders = open_row ∷ [];
  mutations = [];
  events = [];
  outbox = [];
  next_message = 1;
  identities = none;
}

-- The second request is refused, since the first is active, and so is the second claim.
abbrev calls : List MutationCall
calls =
    ask cancelling (aware 10)
    ∷ ask replacing (aware 11)
    ∷ claim "m1" (aware 12)
    ∷ claim "m1" (aware 13)
    ∷ settle "m1" succeeded "done" (aware 14) none
    ∷ published 1 (aware 15)
    ∷ []

abbrev settled : Db
settled = run calls empty_db

abbrev settled_row : Mutation
settled_row = record {
  mutation_id = "m1";
  intent_id = "i1";
  kind = cancel;
  target_limit_price = none;
  baseline_limit_price = finite (pos 5) (pos 0);
  broker_order_id = "b1";
  state = succeeded;
  outcome = "done";
  version = 3;
  created_at = 10;
  updated_at = 14;
}

settled_mutation : settled.mutations ≡ settled_row ∷ []
unfolding run after request claim_started set_state mark_outbox_published validate_request
    same_request is_blank strip dec_lt dec_eq number_text
settled_mutation = refl

one_grant : grants "m1" calls empty_db ≡ 1
unfolding run after request claim_started set_state mark_outbox_published validate_request
    same_request is_blank strip dec_lt dec_eq number_text grants
one_grant = refl

run_one_active_example : IsSound (run calls empty_db).mutations
run_one_active_example = run_one_active calls empty_db (record { keys_once = tt; active_once = tt })

claimed_once_example : grants "m1" calls empty_db ≤ 1
claimed_once_example = claimed_once "m1" calls empty_db

settled_found : find_mutation "m1" settled.mutations ≡ some settled_row
settled_found = rw settled_mutation refl
