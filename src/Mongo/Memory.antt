-- ===== src/Mongo/Memory.antt =====
-- A collection that keeps its documents in a list and never fails, and numbers as its IDs: an instance
-- of what is assumed of the driver.
use go_blockchain_watcher.Prelude.{
  none, ℕ, refl, inr, length, Bool, false, List, [], ◌∷◌, ◌++◌, first, modify_first, select,
  is_some, eqb, arith, if◌then◌else◌,
}
use go_blockchain_watcher.Errors.{errors_new, err, ok}
use go_blockchain_watcher.Mongo.{Collection, CollectionLaws, ObjectIdLaws}

module _ {Doc : Type 0} where
  abbrev pub memory : Collection Doc (List Doc)
  memory = record {
    find_one = λ p s. ok (first p s);
    find = λ p s. ok (select p s);
    count_documents = λ p s. ok (length (select p s));
    insert_one = λ d s. (ok tt, s ++ d ∷ []);
    update_one = λ p f s. (ok (if is_some (first p s) then 1 else 0), modify_first p f s);
    is_duplicate_key_error = λ e. false;
  }

  abbrev pub documents : List Doc → List Doc
  documents s = s

  pub memory-CollectionLaws : CollectionLaws memory documents
  memory-CollectionLaws = record {
    find_one_ok = λ p s r e. ground (arith, e);
    find_ok = λ p s r e. ground (arith, e);
    count_documents_ok = λ p s n e. ground (arith, e);
    insert_one_any = λ d s. inr refl;
    insert_one_ok = λ d s e. refl;
    update_one_ok = λ p f s n e. (refl, ground (arith, e));
  }

-- A collection without documents, whose inserts fail.
abbrev pub no_documents : {Doc S : Type 0} → Collection Doc S
no_documents = record {
  find_one = λ p s. ok none;
  find = λ p s. ok [];
  count_documents = λ p s. ok 0;
  insert_one = λ d s. (err (errors_new "read only"), s);
  update_one = λ p f s. (ok 0, s);
  is_duplicate_key_error = λ e. false;
}

abbrev pub is_zero_id : ℕ → Bool
is_zero_id n = eqb n 0

pub ids-ObjectIdLaws : ObjectIdLaws 0 is_zero_id eqb
ids-ObjectIdLaws = record {
  same_iff = λ a b. (λ h. ground (arith, h), λ h. ground (arith, h));
  is_zero_nil = refl;
}
