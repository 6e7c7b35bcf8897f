-- ===== src/Genesis.antt =====
-- crates/taron-core/src/genesis.rs: the parameters of the testnet, the state of an account and the
-- accounts that the network starts with.
use taron.Prelude.{ℕ, ◌-◌, Bool, [], ◌∷◌, leb, if◌then◌else◌, replicate}
use taron.Prelude.Words.{Bytes, add64}
use taron.Prelude.Text.{bytes_dec, codes}
use taron.Prelude.Dict.{Dict, insert}
use taron.Error.{Result, ok, err}

abbrev pub testnet_difficulty : ℕ
testnet_difficulty = 14

abbrev pub testnet_reward : ℕ
testnet_reward = 15_850_000

abbrev pub premine_balance : ℕ
premine_balance = 20_000_000_000_000

abbrev pub premine_pubkey : Bytes
premine_pubkey =
    0x0c ∷ 0x27 ∷ 0x5d ∷ 0xcf ∷ 0xdd ∷ 0x97 ∷ 0x76 ∷ 0xdc ∷ 0xb8 ∷ 0x47 ∷ 0x58 ∷ 0x4a ∷ 0xfe ∷ 0x31
    ∷ 0x7e ∷ 0x1e ∷ 0x68 ∷ 0x58 ∷ 0xf7 ∷ 0x64 ∷ 0xd4 ∷ 0xed ∷ 0xeb ∷ 0xfa ∷ 0x4a ∷ 0x1b ∷ 0x8c
    ∷ 0xb8 ∷ 0xdd ∷ 0xea ∷ 0xf8 ∷ 0xe8 ∷ []

abbrev pub zero_hash : Bytes
zero_hash = replicate 32 0

pub record AccountState : Type 0 where
  pub balance : ℕ
  pub sequence : ℕ
  pub last_tx_hash : Bytes

abbrev pub new_account : ℕ → AccountState
new_account balance = record { balance = balance; sequence = 0; last_tx_hash = zero_hash }

abbrev pub can_spend : AccountState → ℕ → Bool
can_spend a amount = leb amount a.balance

-- `spend` changes the account only if it succeeds.
unfoldable pub spend : ℕ → Bytes → AccountState → Result (Unit {0}) Bytes × AccountState
spend amount tx_hash a =
    if can_spend a amount
    then (
      ok tt,
      record {
        balance = a.balance - amount;
        sequence = add64 a.sequence 1;
        last_tx_hash = tx_hash;
      },
    )
    else (err (codes "Insufficient balance"), a)

-- In a release build the addition wraps.
unfoldable pub credit : ℕ → AccountState → AccountState
credit amount a = record a { balance = add64 a.balance amount }

-- `GenesisState::testnet`
unfoldable pub testnet_accounts : Dict Bytes AccountState
testnet_accounts = insert bytes_dec premine_pubkey (new_account premine_balance) []
