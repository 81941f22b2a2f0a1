-- ===== src/Examples.antt =====
-- A dictionary that keeps one byte string, and runs of the development's theorems on it.
pub mod Transfers
pub mod Rules
pub mod Codes
pub mod Cycles
pub mod Pdos
pub mod Nodes
pub mod Locks
pub mod Wires
use yacob.Base.{
  ℕ, ◌&&◌, ◌==◌, ◌≡◌, refl, arith, Bool, true, false, if◌then◌else◌, ltb, leb, List, [], ◌∷◌,
  length, write_at, length-write_at, Option, some, none,
}
use yacob.Base.Bytes.{Bytes8, of_list}
use yacob.Base.Results.{Result, ok, err}
use yacob.Nmt.{NmtState, pre_operational, operational}
use yacob.Sdo.Od.{ObjectDictionary, OdError, not_found, value_too_long, ReadFits}
use yacob.Sdo.Validate.{SdoContext}

-- Every object reads as the string, and takes any write.
unfoldable pub read_string : List ℕ → ℕ → ℕ → List ℕ → Result ℕ OdError × List ℕ
read_string text index subindex buf =
    if ltb (length buf) (length text)
    then (err value_too_long, buf)
    else (ok (length text), write_at buf 0 text)

abbrev pub strings : ObjectDictionary (List ℕ)
strings = record {
  lookup = λ od index subindex. none;
  read = read_string;
  write = λ od index subindex bytes. (ok tt, bytes);
  sub_count = λ od index. some 2;
  validate_write = λ od index subindex bytes. ok tt;
}

pub strings-ReadFits : ReadFits strings
unfolding read_string
strings-ReadFits = record {
  keeps_length = λ od index subindex buf. ground (arith, length-write_at buf 0 od);
  within = λ od index subindex buf. ground arith;
}

-- The text "antenna on".
abbrev pub text : List ℕ
text = 97 ∷ 110 ∷ 116 ∷ 101 ∷ 110 ∷ 110 ∷ 97 ∷ 32 ∷ 111 ∷ 110 ∷ []

abbrev pub context : NmtState → SdoContext
context state = record {
  nmt_state = state;
  now_us = 1000;
  heartbeat_consumer_count = 2;
  cob_ids = record { default_rx = 0x605; default_tx = 0x585; extra_rx = []; extra_tx = [] };
  reserved_cob_ids = record { ids = 0x185 ∷ []; truncated = false };
  sync_cob_id = 0x80;
}
