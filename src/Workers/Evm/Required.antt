-- ===== src/Workers/Evm/Required.antt =====
-- The active chains of internal/worker/evm/worker.go and those that are required.
use go_blockchain_watcher.Prelude.{
  suc, ◌≡◌, refl, ap, ◌∙◌, String, true, false, false≢true, not, none, List, [], ◌∷◌, ◌==◌, eq_iff,
  eq_refl, select, length, is_some, arith, inl, inr, Bool-cases, String-cases, nil_of_length,
  if◌then◌else◌,
}
use go_blockchain_watcher.Map.{Map, lookup, insert, lookup-insert}
use go_blockchain_watcher.Workers.Evm.{ChainWorker, contains, all_required}

-- A slice without the first copy of a text.
abbrev without : String → List String → List String
without x [] = []
without x (y ∷ ys) = let rest = without x ys in if y == x then ys else y ∷ rest

length-without :
    (x : String) (ys : List String) → contains ys x ≡ true → suc (length (without x ys)) ≡ length ys
unfolding contains
length-without x [] h = ground (arith, h)
length-without x (y ∷ ys) h = ground (arith, h, length-without x ys)

contains-without :
    (x : String) (ys : List String) (z : String)
    → (x == z) ≡ false
    → contains (without x ys) z ≡ contains ys z
unfolding contains
contains-without x [] z h = refl
contains-without x (y ∷ ys) z h =
    ground (arith, h, contains-without x ys z h, eq_iff y x, eq_iff y z, eq_iff x z)

-- A Go map has one entry for each key.
abbrev pub Unique : Map ChainWorker → Type 0
Unique [] = Unit
Unique (e ∷ rest) = (lookup e.0 rest ≡ none) × Unique rest

all_required-without :
    (x : String) (required : List String) (active : Map ChainWorker)
    → lookup x active ≡ none
    → all_required required active ≡ true
    → all_required (without x required) active ≡ true
unfolding all_required lookup
all_required-without x required [] absent h = refl
all_required-without x required (e ∷ rest) absent h = ground (
  arith,
  absent,
  h,
  eq_iff x e.0,
  eq_iff e.0 x,
  contains-without x required e.0,
  all_required-without x required rest,
)

-- When as many chains are active as are required, and all active ones are required, then all required
-- ones are active.
pub required-active :
    (required : List String) (active : Map ChainWorker) (chain : String)
    → Unique active
    → length required ≡ length active
    → all_required required active ≡ true
    → contains required chain ≡ true
    → is_some (lookup chain active) ≡ true
unfolding all_required lookup contains
required-active required [] chain unique same h c =
    let e : required ≡ [] = nil_of_length required same in absurd (false≢true (rw e at c))
required-active required (e ∷ rest) chain (fresh, unique) same h c = elim (String-cases e.0 chain) [
  | inl found ↦ ground (arith, found, eq_iff e.0 chain)
  | inr other ↦
      let here : contains required e.0 ≡ true = ground (arith, h) in
      let others : all_required required rest ≡ true = ground (arith, h) in
      let shorter : length (without e.0 required) ≡ length rest =
        omega (arith, length-without e.0 required here, same) in
      rw other (
        required-active (without e.0 required) rest chain unique shorter
          (all_required-without e.0 required rest fresh others)
          (contains-without e.0 required chain other ∙ c))
]

-- When all active chains are required, none is stopped.
pub select-required :
    (required : List String) (active : Map ChainWorker)
    → all_required required active ≡ true
    → (select (λ (e : String × ChainWorker). contains required e.0) active ≡ active)
      × (select (λ (e : String × ChainWorker). not (contains required e.0)) active ≡ [])
unfolding all_required
select-required required [] h = (refl, refl)
select-required required (e ∷ rest) h =
    let here : contains required e.0 ≡ true = ground (arith, h) in
    let (kept, none_left) = select-required required rest (ground (arith, h)) in
    rw here (rw kept refl, rw none_left refl)

pub lookup-select :
    (required : List String) (active : Map ChainWorker) (chain : String)
    → lookup chain (select (λ (e : String × ChainWorker). contains required e.0) active)
      ≡ (if contains required chain then lookup chain active else none)
unfolding lookup
lookup-select required [] chain = ground arith
lookup-select required (e ∷ rest) chain =
    ground (arith, eq_iff e.0 chain, lookup-select required rest chain)

pub Unique-select :
    (required : List String) (active : Map ChainWorker)
    → Unique active
    → Unique (select (λ (e : String × ChainWorker). contains required e.0) active)
Unique-select required [] unique = tt
Unique-select required (e ∷ rest) (fresh, unique) = elim (Bool-cases (contains required e.0)) [
  | inl kept ↦ rw kept (
    lookup-select required rest e.0
        ∙ ap (λ o. if contains required e.0 then o else none) fresh
        ∙ rw kept refl,
    Unique-select required rest unique,
  )
  | inr dropped ↦ rw dropped (Unique-select required rest unique)
]

pub Unique-insert :
    (chain : String) (x : ChainWorker) (active : Map ChainWorker)
    → Unique active
    → Unique (insert chain x active)
unfolding insert lookup
Unique-insert chain x [] unique = (refl, tt)
Unique-insert chain x (e ∷ rest) (fresh, unique) = elim (String-cases e.0 chain) [
  | inl same ↦ rw same (rw (eq_refl chain) (rw same at fresh, unique))
  | inr other ↦
      let flipped : (chain == e.0) ≡ false =
        ground (arith, other, eq_iff chain e.0, eq_iff e.0 chain) in
      rw other
        (lookup-insert chain e.0 x rest ∙ rw flipped fresh, Unique-insert chain x rest unique)
]
