-- ===== src/Wallets/Examples.antt =====
-- The theorems on what the wallet use cases store (src/usecases/wallet_usecase.go) at a collection in
-- memory.
use go_blockchain_watcher.Prelude.{
  ℕ, String, ◌≡◌, refl, true, false, none, some, List, [], ◌∷◌, ◌++◌, first, eqb,
}
use go_blockchain_watcher.Values.{ℤ, pos}
use go_blockchain_watcher.Mongo.Memory.{
  memory, documents, memory-CollectionLaws, is_zero_id, ids-ObjectIdLaws,
}
use go_blockchain_watcher.Wallets.{Wallet, Document, new_wallet}
use go_blockchain_watcher.Wallets.Adapter.{
  WalletRepository, wallet_repository_adapter, convert_wallet_domain_to_model,
  convert_wallet_model_to_domain,
}
use go_blockchain_watcher.Wallets.UseCase
use go_blockchain_watcher.Wallets.Persistence.{delete_wallet_keeps, create_wallet_stores}

abbrev stored : Document ℕ
stored = record {
  id = 4;
  user_id = 9;
  name = "Main";
  wallet_group = "Group 1";
  hashed_seed_phrase = "h";
  account_depth = pos 1;
  primary_wallet = true;
  is_linked = true;
  zap_exchange_id = 3;
  is_deleted = false;
  deleted_at = none;
  created_at = 100;
  updated_at = 100;
}

abbrev repository : WalletRepository ℕ (List (Document ℕ))
repository = wallet_repository_adapter 0 is_zero_id eqb memory 77 200

delete_wallet_keeps_example :
    first (λ d. eqb d.id 4) (UseCase.delete_wallet is_zero_id repository 150 4 (stored ∷ [])).1
    ≡ some (record stored {
      wallet_group = "";
      account_depth = pos 0;
      primary_wallet = false;
      is_linked = false;
      is_deleted = false;
      updated_at = 200;
    })
delete_wallet_keeps_example =
    delete_wallet_keeps 0 is_zero_id eqb ids-ObjectIdLaws memory documents memory-CollectionLaws 77
      200 stored 150 (stored ∷ []) refl refl
      (unfold UseCase.delete_wallet wallet_repository_adapter convert_wallet_domain_to_model
          convert_wallet_model_to_domain in
        refl)

-- A conversion of the depth to text that always gives a letter.
abbrev letter : ℤ → String
letter n = "b"

abbrev returned : Wallet ℕ
returned = new_wallet letter 5 0 150 9 "Savings" "seed" (pos 2)

create_wallet_stores_example :
    ((UseCase.create_wallet is_zero_id repository letter 5 0 150 9 "Savings" "seed" (pos 2) []).1
      ≡ []
        ++ record {
          id = 5;
          user_id = 9;
          name = "Savings";
          wallet_group = "";
          hashed_seed_phrase = "";
          account_depth = pos 0;
          primary_wallet = false;
          is_linked = false;
          zap_exchange_id = 0;
          is_deleted = false;
          deleted_at = none;
          created_at = 200;
          updated_at = 200;
        }
          ∷ [])
    × (returned.hashed_seed_phrase ≡ "seed")
    × (returned.account_depth ≡ pos 2)
create_wallet_stores_example =
    create_wallet_stores 0 is_zero_id eqb ids-ObjectIdLaws memory documents memory-CollectionLaws 77
      200 letter 5 9 150 "Savings" "seed" (pos 2) returned [] refl
      (unfold UseCase.create_wallet wallet_repository_adapter convert_wallet_domain_to_model
          new_wallet in
        refl)
