-- ===== src/Guard/Tests.antt =====
-- The caps on concrete calls.
use jqe.Prelude.{ℕ, ◌+◌, ◌≤◌, ◌≡◌, refl, none, some, [], ◌∷◌, List, arith}
use jqe.Text.{Text, text}
use jqe.Store.{aware, naive}
use jqe.Guard.{submission_starts, submissions}
use jqe.Guard.Bounds.{Attempt, consume_all, taken, consume_all-submission_starts}
use jqe.Guard.Once.{spent, consume_each, orders, consume_each-orders}

-- Three starts on one instrument within the first day, spelt differently.
abbrev starts : List Attempt
starts =
    record { scope = text "a"; instrument = text "r_75"; at = none; clock = aware 10 }
    ∷ record {
      scope = text " a ";
      instrument = text "R_75 ";
      at = some (aware 20);
      clock = naive 0;
    }
    ∷ record { scope = text "a"; instrument = text "R_75"; at = none; clock = aware 30 }
    ∷ []

two_of_three : taken 2 (text "a") (text "R_75") 0 starts [] ≡ 2
unfolding taken jqe.Guard.consume jqe.Text.nonblank jqe.Guard.count_start submission_starts
    jqe.Guard.usage jqe.Text.normalize jqe.Text.text_eq jqe.Guard.date jqe.Guard.upsert_counter
two_of_three = refl

none_yet : submission_starts (text "a") (text "R_75") 0 [] ≤ 2
unfolding submission_starts
none_yet = omega arith

consume_all-submission_starts_example :
    (submission_starts (text "a") (text "R_75") 0 (consume_all 2 starts [])
      ≡ submission_starts (text "a") (text "R_75") 0 []
        + taken 2 (text "a") (text "R_75") 0 starts [])
    × (submission_starts (text "a") (text "R_75") 0 (consume_all 2 starts []) ≤ 2)
consume_all-submission_starts_example =
    consume_all-submission_starts 2 (text "a") (text "R_75") 0 starts [] none_yet

abbrev calls : List (Text × ℕ)
calls = (text "a ", 1) ∷ (text "a", 2) ∷ []

once_of_two : orders (text "a") calls [] ≡ 1
unfolding orders jqe.Guard.consume_once jqe.Text.nonblank submissions jqe.Text.text_eq
    jqe.Guard.upsert_lifetime
once_of_two = refl

consume_each-orders_example :
    (spent (text "a") [] + orders (text "a") calls [] ≡ spent (text "a") (consume_each calls []))
    × (orders (text "a") calls [] ≤ 1)
consume_each-orders_example = consume_each-orders (text "a") calls []
