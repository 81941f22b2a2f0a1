-- ===== src/Examples/Locks.antt =====
-- Downloads to an object dictionary that keeps the PDO configuration apart from the other objects.
-- The bytes that were written last to a PDO communication or mapping object, and to another.
use yacob.Base.{
  ℕ, ◌+◌, ◌/◌, ◌%◌, ◌≤◌, ◌≡◌, ◌≢◌, ◌⊎◌, inr, refl, arith, false, ◌&&◌, if◌then◌else◌, leb, List, [],
  ◌∷◌, length, contains, none, some,
}
use yacob.Base.Bytes.{Bytes8, of_list}
use yacob.Base.Results.{Result, ok, err}
use yacob.Sdo.Od.{OdError, not_found, ObjectDictionary}
use mathlib.Core.List.{Memᴰ}
use yacob.Nmt.{operational, pre_operational}
use yacob.Sync.{is_supported_sync_cob_id}
use yacob.Sdo.Protocol.{command_specifier, parse_index_sub, encode_download_response}
use yacob.Sdo.Validate.{
  raw_of, is_pdo_config_index, validate_download, validate_heartbeat_consumer_write,
  validate_pdo_cob_id_write, validate_sync_cob_id_write, validate_sync_counter_overflow_write,
  sdo_claims, reserved_claims, heartbeat_scan,
}
use yacob.Sdo.Validate.Plan.{IsFree}
use yacob.Sdo.Server.State.{new_server, silent, Outcome}
use yacob.Sdo.Server.Segmented.{handle_initiate_download, commit}
use yacob.Sdo.Server.Process.{process_with_context, dispatch, is_block_segment, end_on_abort}
use yacob.Sdo.Server.Session.{ServerInput, request, application, timeout, serve_all}
use yacob.Sdo.Server.Effects.Lock.{IsKept}
use yacob.Sdo.Server.Effects.Locked.{serve_all-keeps_config}
use yacob.Sdo.Server.Effects.Queue.{newest, serve_requests, serve_requests-newest}
use yacob.Sdo.Server.Effects.Written.{
  written_pdo_cob_id, written_sync_cob_id, written_heartbeat_consumer,
}
use yacob.Examples.{context}

abbrev Stored : Type 0
Stored = List ℕ × List ℕ

unfoldable write_stored : Stored → ℕ → ℕ → List ℕ → Result (Unit {0}) OdError × Stored
write_stored od index subindex bytes =
    (ok tt, if leb 0x1400 index && leb index 0x1BFF then (bytes, od.1) else (od.0, bytes))

abbrev stores : ObjectDictionary Stored
stores = record {
  lookup = λ od index subindex. none;
  read = λ od index subindex buf. (err not_found, buf);
  write = write_stored;
  sub_count = λ od index. some 2;
  validate_write = λ od index subindex bytes. ok tt;
}

-- Expedited downloads of four bytes: the COB-ID 0x187 of the first TPDO, a consumer entry for node 7
-- with a heartbeat time of 1000 ms, the SYNC COB-ID 0x81, and the heartbeat time of the node.
abbrev download_of : ℕ → ℕ → ℕ → ℕ → ℕ → ℕ → Bytes8
download_of low high subindex a b c = of_list (0x23 ∷ low ∷ high ∷ subindex ∷ a ∷ b ∷ c ∷ 0 ∷ [])

abbrev write_pdo : Bytes8
write_pdo = download_of 0x00 0x18 1 0x87 0x01 0x00

abbrev write_consumer : Bytes8
write_consumer = download_of 0x16 0x10 1 0xE8 0x03 0x07

abbrev write_sync : Bytes8
write_sync = download_of 0x05 0x10 0 0x81 0x00 0x00

abbrev write_other : Bytes8
write_other = download_of 0x00 0x20 0 1 2 3

-- The configuration is what it was.
abbrev Configured : Stored → Type 0
Configured od = od.0 ≡ 7 ∷ []

stores-IsKept : IsKept stores 4 Configured
unfolding write_stored
stores-IsKept od index subindex bytes other p = ground (arith, other, p)

abbrev session : List (ServerInput Stored)
session =
    request write_pdo (context operational)
    ∷ request write_other (context operational)
    ∷ application (7 ∷ [], []) []
    ∷ timeout 5000000
    ∷ []

abbrev fresh : Outcome Stored
fresh = record { server = new_server; od = (7 ∷ [], []); events = []; reply = silent }

serve_all-keeps_config_example : (serve_all stores 4 fresh session).od.0 ≡ 7 ∷ []
unfolding new_server
serve_all-keeps_config_example =
    serve_all-keeps_config stores 4 Configured fresh session stores-IsKept
      (refl, (refl, (refl, (_, _)))) refl refl

-- A queue with room for one event.
serve_requests-newest_example :
    let (queue, log) =
      serve_requests stores 1
        ((write_consumer, context pre_operational) ∷ (write_other, context operational) ∷ [])
        new_server
        ([], [])
        []
        [] in
    queue ≡ newest 1 log
unfolding new_server
serve_requests-newest_example =
    serve_requests-newest stores 1
      ((write_consumer, context pre_operational) ∷ (write_other, context operational) ∷ [])
      new_server ([], []) [] refl (omega arith)

written_pdo_cob_id_example :
    let o =
      process_with_context stores 4 new_server write_pdo ([], []) [] (context pre_operational) in
    (bytes : List ℕ) × ((write_stored ([], []) 0x1800 1 bytes ≡ (ok tt, o.od))
      × ((length bytes ≢ 4)
          ⊎ ((raw_of bytes % 0x4000_0000 ≡ raw_of bytes % 0x800)
              × ((raw_of bytes % 0x800 ≡ 0)
                  ⊎ (IsFree (context pre_operational).cob_ids (raw_of bytes % 0x800)
                      × (raw_of bytes % 0x800 ≢ 0x80))))))
unfolding process_with_context dispatch is_block_segment end_on_abort handle_initiate_download
    commit command_specifier parse_index_sub new_server is_pdo_config_index write_stored
    validate_download validate_heartbeat_consumer_write validate_pdo_cob_id_write
    validate_sync_cob_id_write validate_sync_counter_overflow_write sdo_claims contains
    encode_download_response
written_pdo_cob_id_example =
    written_pdo_cob_id stores 4 new_server write_pdo ([], []) [] (context pre_operational) 0x1800
      (inr (omega arith, omega arith)) refl refl

written_sync_cob_id_example :
    let o =
      process_with_context stores 4 new_server write_sync ([], []) [] (context pre_operational) in
    (bytes : List ℕ) × ((write_stored ([], []) 0x1005 0 bytes ≡ (ok tt, o.od))
      × ((length bytes ≢ 4)
          ⊎ (((1 ≤ raw_of bytes % 0x800)
                × (raw_of bytes % 0x4000_0000 ≡ raw_of bytes % 0x800)
                × (raw_of bytes / 0x8000_0000 % 2 ≡ 0))
              × IsFree (context pre_operational).cob_ids (raw_of bytes % 0x800)
              × ((false ≡ false) × ¬ (Memᴰ (raw_of bytes % 0x800) (0x185 ∷ []))))))
unfolding process_with_context dispatch is_block_segment end_on_abort handle_initiate_download
    commit command_specifier parse_index_sub new_server is_pdo_config_index write_stored
    validate_download validate_heartbeat_consumer_write validate_pdo_cob_id_write
    validate_sync_cob_id_write validate_sync_counter_overflow_write sdo_claims contains
    encode_download_response is_supported_sync_cob_id reserved_claims
written_sync_cob_id_example =
    written_sync_cob_id stores 4 new_server write_sync ([], []) [] (context pre_operational) refl
      refl

written_heartbeat_consumer_example :
    let o =
      process_with_context stores 4 new_server write_consumer
        ([], [])
        []
        (context pre_operational) in
    (bytes : List ℕ) × ((write_stored ([], []) 0x1016 1 bytes ≡ (ok tt, o.od))
      × ((length bytes ≢ 4)
          ⊎ ((raw_of bytes % 0x1_0000 ≡ 0)
              ⊎ ((1 ≤ raw_of bytes / 0x1_0000 % 0x100)
                  × (raw_of bytes / 0x1_0000 % 0x100 ≤ 127)
                  × IsFree
                      (context pre_operational).cob_ids
                      (0x700 + raw_of bytes / 0x1_0000 % 0x100)
                  × (0x700 + raw_of bytes / 0x1_0000 % 0x100 ≢ 0x80)))))
unfolding process_with_context dispatch is_block_segment end_on_abort handle_initiate_download
    commit command_specifier parse_index_sub new_server is_pdo_config_index write_stored
    validate_download validate_heartbeat_consumer_write validate_pdo_cob_id_write
    validate_sync_cob_id_write validate_sync_counter_overflow_write sdo_claims contains
    encode_download_response heartbeat_scan
written_heartbeat_consumer_example =
    written_heartbeat_consumer stores 4 new_server write_consumer ([], []) []
      (context pre_operational) 1 (omega arith) (omega arith) refl refl
