-- ===== src/Mongo.antt =====
-- The collections of the MongoDB driver, which config/mongodb/repositories.go calls. The driver is
-- a parameter: a store of some type, the operations, and what its documentation promises of them.
pub mod Memory
use go_blockchain_watcher.Prelude.{
  ℕ, ◌≡◌, ◌↔◌, ◌⊎◌, length, Bool, true, false, Option, none, some, List, [], ◌∷◌, ◌++◌, first,
  modify_first, select, is_some, if◌then◌else◌,
}
use go_blockchain_watcher.Errors.{Error, Result, ok, err}

-- `find_one` gives `none` for `mongo.ErrNoDocuments`, and `update_one` the `MatchedCount`. A filter
-- is the test that it makes of a document, and a `$set` the change that it makes to one.
pub record Collection (Doc S : Type 0) : Type 0 where
  pub find_one : (Doc → Bool) → S → Result (Option Doc)
  pub find : (Doc → Bool) → S → Result (List Doc)
  pub count_documents : (Doc → Bool) → S → Result ℕ
  pub insert_one : Doc → S → Result (Unit {0}) × S
  pub update_one : (Doc → Bool) → (Doc → Doc) → S → Result ℕ × S
  pub is_duplicate_key_error : Error → Bool

-- What a call that succeeds has done, in terms of the documents that the store holds.
pub record CollectionLaws {Doc S : Type 0} (c : Collection Doc S) (docs : S → List Doc)
    : Type 0 where
  pub find_one_ok :
      (p : Doc → Bool) (s : S) (r : Option Doc) → c.find_one p s ≡ ok r → r ≡ first p (docs s)
  pub find_ok : (p : Doc → Bool) (s : S) (r : List Doc) → c.find p s ≡ ok r → r ≡ select p (docs s)
  pub count_documents_ok :
      (p : Doc → Bool) (s : S) (n : ℕ)
      → c.count_documents p s ≡ ok n
      → n ≡ length (select p (docs s))
  -- An insert that fails may still have been made.
  pub insert_one_any :
      (d : Doc) (s : S)
      → (docs (c.insert_one d s).1 ≡ docs s) ⊎ (docs (c.insert_one d s).1 ≡ docs s ++ d ∷ [])
  pub insert_one_ok :
      (d : Doc) (s : S)
      → (c.insert_one d s).0 ≡ ok tt
      → docs (c.insert_one d s).1 ≡ docs s ++ d ∷ []
  pub update_one_ok :
      (p : Doc → Bool) (f : Doc → Doc) (s : S) (n : ℕ)
      → (c.update_one p f s).0 ≡ ok n
      → (docs (c.update_one p f s).1 ≡ modify_first p f (docs s))
        × (n ≡ (if is_some (first p (docs s)) then 1 else 0))

-- What the program relies on of `primitive.ObjectID`: equality, `NilObjectID` and `IsZero`.
pub record ObjectIdLaws {ObjectId : Type 0} (nil_id : ObjectId) (is_zero : ObjectId → Bool)
    (same : ObjectId → ObjectId → Bool) : Type 0 where
  pub same_iff : (a b : ObjectId) → (same a b ≡ true) ↔ (a ≡ b)
  pub is_zero_nil : is_zero nil_id ≡ true
