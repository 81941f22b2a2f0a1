-- ===== src/Sdo/Od.antt =====
-- canopen-core/src/od.rs and datatypes.rs: the object dictionary as an interface. The
-- dictionaries themselves are generated from an application's description, so every server
-- operation takes one as an argument.
use Prim.Native.String.{String}
use yacob.Base.{ℕ, ◌≤◌, ◌≡◌, Bool, List, length, Option, some, none}
use yacob.Base.Results.{Result, ok, err}
use yacob.Sdo.Abort.{SdoAbort}

pub data DataType : Type 0 where
  boolean int8 int16 int32 uint8 uint16 uint32 real32 visible_string octet_string : DataType
  domain int24 uint24 real64 int64 uint64 : DataType

-- `DataType::size`.
unfoldable pub size : DataType → Option ℕ
size boolean = some 1
size uint8 = some 1
size int8 = some 1
size uint16 = some 2
size int16 = some 2
size int24 = some 3
size uint24 = some 3
size uint32 = some 4
size int32 = some 4
size real32 = some 4
size uint64 = some 8
size int64 = some 8
size real64 = some 8
size visible_string = none
size octet_string = none
size domain = none

pub data AccessType : Type 0 where
  ro wo rw const : AccessType

pub record OdEntryMeta : Type 0 where
  pub index : ℕ
  pub subindex : ℕ
  pub data_type : DataType
  pub access : AccessType
  pub pdo_mappable : Bool
  pub name : String
  pub max_size : Option ℕ

pub data OdError : Type 0 where
  not_found read_only write_only data_type_mismatch value_too_long value_range : OdError
  hardware_error : OdError
  abort : SdoAbort → OdError

pub data OdEventSource : Type 0 where
  sdo rpdo rpdo_deadline : OdEventSource

pub record OdEvent : Type 0 where
  pub index : ℕ
  pub subindex : ℕ
  pub source : OdEventSource

-- The trait `ObjectDictionary`. `read` is given the buffer and returns it with the bytes that it
-- wrote; `write` returns the dictionary also where it fails.
pub record ObjectDictionary (O : Type 0) : Type 0 where
  pub lookup : O → ℕ → ℕ → Option OdEntryMeta
  pub read : O → ℕ → ℕ → List ℕ → Result ℕ OdError × List ℕ
  pub write : O → ℕ → ℕ → List ℕ → Result (Unit {0}) OdError × O
  pub sub_count : O → ℕ → Option ℕ
  pub validate_write : O → ℕ → ℕ → List ℕ → Result (Unit {0}) OdError

-- What `read` documents: it keeps the buffer's size, and returns the number of bytes that it
-- wrote into it.
abbrev pub ReadWithin : ℕ → Result ℕ OdError → Type 0
ReadWithin cap (ok n) = n ≤ cap
ReadWithin cap (err e) = Unit

pub record ReadFits {O : Type 0} (dict : ObjectDictionary O) : Type 0 where
  pub keeps_length :
      (od : O) (index subindex : ℕ) (buf : List ℕ)
      → length (dict.read od index subindex buf).1 ≡ length buf
  pub within :
      (od : O) (index subindex : ℕ) (buf : List ℕ)
      → ReadWithin (length buf) (dict.read od index subindex buf).0
