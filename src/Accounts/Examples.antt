-- ===== src/Accounts/Examples.antt =====
-- The theorems on the accounts (src/usecases/account_usecase.go) at a collection in memory.
use go_blockchain_watcher.Prelude.{
  ℕ, ◌+◌, ◌≡◌, ◌≢◌, refl, true, false, Option, none, some, List, [], ◌∷◌, first, eqb, length,
  select, arith, take, drop,
}
use go_blockchain_watcher.Errors.{Error, Result, ok, err, pure}
use go_blockchain_watcher.Values.{pos, negsuc}
use go_blockchain_watcher.Mongo.Memory.{
  memory, documents, memory-CollectionLaws, is_zero_id, ids-ObjectIdLaws,
}
use go_blockchain_watcher.Wallets.{Wallet}
use go_blockchain_watcher.Wallets.Adapter.{WalletRepository}
use go_blockchain_watcher.Currencies.{Currency, Chain, absent, SupportedCurrency}
use go_blockchain_watcher.Currencies.Reads.{get_batch}
use go_blockchain_watcher.Accounts.{Account, Document, new_account}
use go_blockchain_watcher.Accounts.Adapter.{World, AccountRepository, account_repository_adapter}
use go_blockchain_watcher.Accounts.Adapter
use go_blockchain_watcher.Accounts.UseCase
use go_blockchain_watcher.Accounts.Persistence.{delete_account_hides, create-get_account_by_id}
use go_blockchain_watcher.Accounts.Addresses.{create_or_find_account_idempotent}
use go_blockchain_watcher.Accounts.Import.{Services}
use go_blockchain_watcher.Accounts.Import.Originals
use go_blockchain_watcher.Accounts.Import.Derived
use go_blockchain_watcher.Accounts.Import.Batches.{import_accounts}
use go_blockchain_watcher.Accounts.Import.Quiet.{LeavesAccounts}
use go_blockchain_watcher.Accounts.Import.Steps.{over_collection}
use go_blockchain_watcher.Accounts.Import.Termination.{import_accounts_returns}
use go_blockchain_watcher.Accounts.Import.Unique.{Unique, import_accounts-Unique}
use go_blockchain_watcher.Accounts.Import.Growth.{IdsOf, returned_ids, import_accounts_grows}
use go_blockchain_watcher.Accounts.Import.NilAccounts.{import_accounts_loses_ids}
use go_blockchain_watcher.Currencies.Pages.{page, page_lem}

abbrev Store : Type 0
Store = List (Document ℕ)

abbrev world : World ℕ Store
world = record {
  new_object_id = λ s. length s + 100;
  now = λ s. length s + 50;
  context_error = λ s. none;
}

abbrev main_wallet : Wallet ℕ
main_wallet = record {
  id = 3;
  user_id = 9;
  name = "Main";
  wallet_group = "";
  hashed_seed_phrase = "";
  account_depth = pos 0;
  primary_wallet = false;
  is_linked = false;
  zap_exchange_id = 0;
  is_deleted = false;
  deleted_at = none;
  created_at = 1;
  updated_at = 1;
}

abbrev wallets : WalletRepository ℕ Store
wallets = record {
  get_by_id = λ id. pure (some main_wallet);
  get_by_user_id = λ id. pure [];
  create = λ w. pure w;
  update = λ w. pure tt;
  delete = λ id. pure tt;
}

abbrev usdt : Currency ℕ
usdt = record {
  id = 21;
  name = "Tether";
  symbol = "USDT";
  is_crypto = true;
  logo = "";
  website = "";
  explorer = "";
  description = "";
  created_at = 1;
  updated_at = 1;
}

abbrev ethereum : Chain ℕ
ethereum = record {
  id = 31;
  name = "Ethereum";
  symbol = "ETH";
  chain_id = absent;
  network_type = "";
  rpc_url = "";
  explorer_url = "";
  icon_url = "";
  status = "";
  created_at = 1;
  updated_at = 1;
}

abbrev on_ethereum : ℕ → ℕ → SupportedCurrency ℕ
on_ethereum id currency_id = record {
  id = id;
  chain_id = 31;
  currency_id = currency_id;
  token_address = "";
  decimals = pos 6;
  status = "active";
  created_at = 1;
  updated_at = 1;
}

abbrev supported_list : List (SupportedCurrency ℕ)
supported_list = on_ethereum 41 21 ∷ on_ethereum 42 22 ∷ on_ethereum 43 23 ∷ []

abbrev find_supported : Store → Result (List (SupportedCurrency ℕ))
find_supported s = ok supported_list

abbrev repository : AccountRepository ℕ Store
repository = account_repository_adapter 0 is_zero_id eqb memory world

-- A panic of `GetBatch` does not happen here.
abbrev first_batch :
    Option (Result (List (SupportedCurrency ℕ))) × Store
    → Result (List (SupportedCurrency ℕ)) × Store
first_batch (none, s) = (ok [], s)
first_batch (some r, s) = (r, s)

abbrev services : Services ℕ Store
unfolding get_batch
services = record {
  accounts = repository;
  wallets = wallets;
  currencies = λ id. pure (some usdt);
  chains = λ id. pure (some ethereum);
  supported = λ id. pure (some (on_ethereum 41 21));
  supported_batch = λ limit skip s. first_batch (get_batch find_supported (pos limit) (pos skip) s);
  fetch_account_balance = λ address currency chain c. pure 7;
  notify = λ count a s. s;
}

batch_quiet :
    (p : Option (Result (List (SupportedCurrency ℕ))) × Store)
    → documents (first_batch p).1 ≡ documents p.1
batch_quiet (none, s) = refl
batch_quiet (some r, s) = refl

services_quiet : LeavesAccounts documents services
unfolding get_batch services
services_quiet = record {
  wallets = λ id s. refl;
  currencies = λ id s. refl;
  chains = λ id s. refl;
  supported = λ id s. refl;
  supported_batch = λ limit skip s. batch_quiet (get_batch find_supported (pos limit) (pos skip) s);
  fetch_account_balance = λ address currency chain c s. refl;
  notify = λ count a s. refl;
}

abbrev imported : Account ℕ
imported = record {
  id = 0;
  currency_id = 0;
  chain_id = 0;
  wallet_id = 3;
  user_id = 9;
  supported_currency_id = 41;
  account_type = "";
  wallet_address = "0xab";
  balance = 0;
  encrypted_private_key = "k";
  deleted_at = none;
  created_at = 0;
  updated_at = 0;
}

abbrev kept : Document ℕ
unfolding Adapter.convert_account_domain_to_model
kept =
    Adapter.convert_account_domain_to_model 0
      (record imported { id = 5; wallet_address = "0xcd"; chain_id = 31; currency_id = 21 })

abbrev run : List (Option (Account ℕ)) → Store → Option (List ℕ × Option Error) × Store
run list s =
    import_accounts 0 is_zero_id eqb world (over_collection 0 is_zero_id eqb world services memory)
      true true 4 list s

-- One account of the list and two more of its chain are added to the store.
run_ids : (run (some imported ∷ []) (kept ∷ [])).0 ≡ some (101 ∷ 102 ∷ 103 ∷ [], none)
unfolding import_accounts services kept Originals.process_original_accounts
    account_repository_adapter page Derived.process_currencies Adapter.inserted
run_ids = refl

page_lem_example : page (pos 2) (pos 1) supported_list ≡ some (take 2 (drop 1 supported_list))
page_lem_example = page_lem (pos 2) (pos 1) supported_list (omega arith) (omega arith)

-- The last page is cut, a limit that is too large or negative panics.
cut_page : page (pos 10) (pos 2) supported_list ≡ some (on_ethereum 43 23 ∷ [])
unfolding page
cut_page = refl

page_too_large : page (pos 9223372036854775807) (pos 2) supported_list ≡ none
unfolding page
page_too_large = refl

page_negative : page (negsuc 0) (pos 2) supported_list ≡ none
unfolding page
page_negative = refl

paged :
    (skip : ℕ) (s : Store) (r : Result (List (SupportedCurrency ℕ)))
    → (get_batch find_supported (pos 10) (pos skip) s).0 ≡ some r
    → (services.supported_batch 10 skip s).0 ≡ r
unfolding get_batch services
paged skip s r e = rw e refl

import_accounts_returns_example : (run (some imported ∷ []) (kept ∷ [])).0 ≢ none
unfolding services
import_accounts_returns_example =
    import_accounts_returns 0 is_zero_id eqb world
      (over_collection 0 is_zero_id eqb world services memory) find_supported 3 paged
      (λ s cs e. ground (arith, e)) true true 4 (some imported ∷ []) (kept ∷ []) (omega arith)

import_accounts-Unique_example :
    Unique 0 is_zero_id eqb ids-ObjectIdLaws world services memory
      (run (some imported ∷ some imported ∷ []) (kept ∷ [])).1
import_accounts-Unique_example =
    import_accounts-Unique 0 is_zero_id eqb ids-ObjectIdLaws world services memory documents
      memory-CollectionLaws services_quiet true true 4 (some imported ∷ some imported ∷ [])
      (kept ∷ []) (refl, tt)

import_accounts_grows_example :
    (added : List (Document ℕ)) × ((run (some imported ∷ []) (kept ∷ [])).1 ≡ kept ∷ added)
    × IdsOf 0 is_zero_id eqb ids-ObjectIdLaws world services memory
        (returned_ids 0 is_zero_id eqb ids-ObjectIdLaws world services memory
          (run (some imported ∷ []) (kept ∷ [])).0)
        added
import_accounts_grows_example =
    import_accounts_grows 0 is_zero_id eqb ids-ObjectIdLaws world services memory documents
      memory-CollectionLaws services_quiet true true 4 (some imported ∷ []) (kept ∷ [])

import_accounts_loses_ids_example : run (some imported ∷ none ∷ []) (kept ∷ []) ≡ (
  some ([], none),
  (Originals.process_original_accounts 0 is_zero_id eqb world
      (over_collection 0 is_zero_id eqb world services memory)
      2
      (some imported ∷ none ∷ [])
      []
      (kept ∷ [])).1,
)
unfolding services kept Originals.process_original_accounts account_repository_adapter
import_accounts_loses_ids_example =
    import_accounts_loses_ids 0 is_zero_id eqb world
      (over_collection 0 is_zero_id eqb world services memory) 4 imported (none ∷ []) (kept ∷ [])
      refl refl refl refl

create_or_find_account_idempotent_example :
    (length (
        select
          (Adapter.has_address "0xee")
          (UseCase.create_or_find_account 0 is_zero_id world repository wallets 9 31 "0xee"
            (kept ∷ [])).1)
      ≡ 1)
    × ((UseCase.create_or_find_account 0 is_zero_id world repository wallets 8 32 "0xee"
          (UseCase.create_or_find_account 0 is_zero_id world repository wallets 9 31 "0xee"
            (kept ∷ [])).1).1
        ≡ (UseCase.create_or_find_account 0 is_zero_id world repository wallets 9 31 "0xee"
            (kept ∷ [])).1)
unfolding kept UseCase.create_or_find_account account_repository_adapter Adapter.inserted
create_or_find_account_idempotent_example =
    create_or_find_account_idempotent 0 is_zero_id eqb world memory wallets documents
      memory-CollectionLaws 9 31 8 32 "0xee"
      (some (record (new_account 101 0 51 0 9 0 31 "0xee" "") { id = 101 })) (kept ∷ []) refl
      (unfold new_account in refl)

delete_account_hides_example :
    let t = (UseCase.delete_account 0 is_zero_id world repository wallets 5 (kept ∷ [])).1 in
    ((e : Error) × ((UseCase.get_account_by_id 0 is_zero_id world repository wallets 5 t).0
        ≡ err e))
    × (first (λ d. eqb d.id 5) t
        ≡ some (record kept {
          is_player = false;
          inflow_single_limit = 0;
          inflow_daily_limit = 0;
          outflow_single_limit = 0;
          outflow_daily_limit = 0;
          bench_status = false;
          deleted_at = some 51;
          updated_at = 51;
        }))
unfolding kept UseCase.delete_account account_repository_adapter
    Adapter.convert_account_model_to_domain
delete_account_hides_example =
    delete_account_hides 0 is_zero_id eqb ids-ObjectIdLaws world memory wallets documents
      memory-CollectionLaws 5 kept (kept ∷ []) refl refl refl refl

abbrev read_back : Account ℕ
read_back = record {
  id = 101;
  currency_id = 0;
  chain_id = 0;
  wallet_id = 3;
  user_id = 9;
  supported_currency_id = 41;
  account_type = "";
  wallet_address = "0xab";
  balance = 0;
  encrypted_private_key = "k";
  deleted_at = none;
  created_at = 51;
  updated_at = 51;
}

create-get_account_by_id_example :
    read_back ≡ record imported { id = 101; created_at = 51; updated_at = 51 }
unfolding kept UseCase.get_account_by_id account_repository_adapter Adapter.inserted
    Adapter.convert_account_domain_to_model Adapter.convert_account_model_to_domain
create-get_account_by_id_example =
    create-get_account_by_id 0 is_zero_id eqb ids-ObjectIdLaws world memory wallets documents
      memory-CollectionLaws imported (record imported { id = 101 }) read_back (kept ∷ []) refl refl
      refl refl
