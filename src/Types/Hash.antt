-- ===== src/Types/Hash.antt =====
-- src/types/mod.rs: `Hex32Bytes`, its two uses, and the hash of a script.
use mathlib.Core.List.{reverse}
use electrum_sdk.Base.{◌≡◌, Bool, true, ap, ◌↔◌, Eq, bytes_eq, bytes_eq_iff}
use electrum_sdk.External.{External, Bytes}

-- 32 bytes; the length is not part of the type.
pub record Hex32Bytes : Type 0 where
  pub bytes : Bytes

abbrev pub ScriptHash : Type 0
ScriptHash = Hex32Bytes

abbrev pub ScriptStatus : Type 0
ScriptStatus = Hex32Bytes

abbrev pub hash_beq : Hex32Bytes → Hex32Bytes → Bool
hash_beq a b = bytes_eq a.bytes b.bytes

pub hash_beq_iff : (a b : Hex32Bytes) → (hash_beq a b ≡ true) ↔ (a ≡ b)
hash_beq_iff a b = (
  λ h. let e = (bytes_eq_iff a.bytes b.bytes).0 h in λ i. record { bytes = e i },
  λ e. (bytes_eq_iff a.bytes b.bytes).1 (ap (λ (h : Hex32Bytes). h.bytes) e),
)

instance abbrev pub hash_eq : Eq Hex32Bytes
hash_eq = record { equal = hash_beq; equal_iff = hash_beq_iff }

-- `Deref` and `From<[u8; 32]>`
unfoldable pub deref : Hex32Bytes → Bytes
deref h = h.bytes

unfoldable pub from_bytes : Bytes → Hex32Bytes
from_bytes b = record { bytes = b }

pub record ToElectrumScriptHash (S : Type 0) : Type 0 where
  pub to_electrum_scripthash : S → ScriptHash

-- The implementations of the trait.
abbrev pub hash_to_scripthash : ToElectrumScriptHash Hex32Bytes
hash_to_scripthash = record { to_electrum_scripthash = λ h. h }

module _ (x : External) where
  open x use {Script, Address, sha256, script_as_bytes, script_pubkey}

  unfoldable pub script_to_hash : Script → ScriptHash
  unfolding from_bytes
  script_to_hash s = from_bytes (reverse (sha256 (script_as_bytes s)))

  unfoldable pub address_to_hash : Address → ScriptHash
  unfolding script_to_hash
  address_to_hash a = script_to_hash (script_pubkey a)

  abbrev pub script_to_scripthash : ToElectrumScriptHash Script
  script_to_scripthash = record { to_electrum_scripthash = script_to_hash }

  abbrev pub address_to_scripthash : ToElectrumScriptHash Address
  address_to_scripthash = record { to_electrum_scripthash = address_to_hash }
