-- ===== src/Reconciliation/Lookup.antt =====
-- The maps of `compareRecords` hold, for each key, the last record that has it.
use edge_billing_service.Base.{
  ℕ, Bool, false, Option, none, some, List, [], ◌∷◌, ◌==◌, ◌≡◌, refl, if◌then◌else◌, arith, ◌∙◌,
}
use edge_billing_service.Base.Keyed.{get_key, set_key, AreDistinct, get-set, set-AreDistinct}
use edge_billing_service.Reconciliation.Compare.{
  InternalPayment, Transaction, add_payments, add_transaction, add_transactions,
}

-- The last payment of an intent.
abbrev pub last_payment : ℕ → List InternalPayment → Option InternalPayment
last_payment k [] = none
last_payment k (p ∷ ps) = elim (last_payment k ps) [
  | none ↦ if p.intent == k then some p else none
  | some q ↦ some q
]

abbrev pub has_source : ℕ → Option ℕ → Bool
has_source k none = false
has_source k (some j) = j == k

-- The last transaction of a source.
abbrev pub last_transaction : ℕ → List Transaction → Option Transaction
last_transaction k [] = none
last_transaction k (t ∷ ts) = elim (last_transaction k ts) [
  | none ↦ if has_source k t.source then some t else none
  | some u ↦ some u
]

abbrev or_else : {A : Type 0} → Option A → Option A → Option A
or_else none o = o
or_else (some a) o = some a

or_else-none : {A : Type 0} (o : Option A) → or_else o none ≡ o
or_else-none none = refl
or_else-none (some a) = refl

get-add_payments :
    (k : ℕ) (ps : List InternalPayment) (m : List (ℕ × InternalPayment))
    → get_key k (add_payments m ps) ≡ or_else (last_payment k ps) (get_key k m)
get-add_payments k [] m = refl
get-add_payments k (p ∷ ps) m =
    ground (arith, get-add_payments k ps (set_key p.intent p m), get-set p.intent k p m)

get-add_transaction :
    (k : ℕ) (o : Option ℕ) (t : Transaction) (m : List (ℕ × Transaction))
    → get_key k (add_transaction o t m) ≡ (if has_source k o then some t else get_key k m)
get-add_transaction k none t m = refl
get-add_transaction k (some j) t m = get-set j k t m

get-add_transactions :
    (k : ℕ) (ts : List Transaction) (m : List (ℕ × Transaction))
    → get_key k (add_transactions m ts) ≡ or_else (last_transaction k ts) (get_key k m)
get-add_transactions k [] m = refl
get-add_transactions k (t ∷ ts) m = ground (
  arith,
  get-add_transactions k ts (add_transaction t.source t m),
  get-add_transaction k t.source t m,
)

pub add_payments-AreDistinct :
    (m : List (ℕ × InternalPayment)) (ps : List InternalPayment)
    → AreDistinct m
    → AreDistinct (add_payments m ps)
add_payments-AreDistinct m [] d = d
add_payments-AreDistinct m (p ∷ ps) d =
    add_payments-AreDistinct (set_key p.intent p m) ps (set-AreDistinct p.intent p m d)

add_transaction-AreDistinct :
    (o : Option ℕ) (t : Transaction) (m : List (ℕ × Transaction))
    → AreDistinct m
    → AreDistinct (add_transaction o t m)
add_transaction-AreDistinct none t m d = d
add_transaction-AreDistinct (some k) t m d = set-AreDistinct k t m d

pub add_transactions-AreDistinct :
    (m : List (ℕ × Transaction)) (ts : List Transaction)
    → AreDistinct m
    → AreDistinct (add_transactions m ts)
add_transactions-AreDistinct m [] d = d
add_transactions-AreDistinct m (t ∷ ts) d =
    add_transactions-AreDistinct (add_transaction t.source t m) ts
      (add_transaction-AreDistinct t.source t m d)

pub get-payments :
    (k : ℕ) (ps : List InternalPayment) → get_key k (add_payments [] ps) ≡ last_payment k ps
get-payments k ps = get-add_payments k ps [] ∙ or_else-none (last_payment k ps)

pub get-transactions :
    (k : ℕ) (ts : List Transaction) → get_key k (add_transactions [] ts) ≡ last_transaction k ts
get-transactions k ts = get-add_transactions k ts [] ∙ or_else-none (last_transaction k ts)
