-- ===== src/Examples/Transfers.antt =====
-- Transfers of one byte string.
use yacob.Base.{contains, ℕ, ◌≡◌, refl, arith, true, false, List, [], ◌∷◌, some, none, write_at}
use yacob.Base.Bytes.{Bytes8, of_list}
use yacob.Can.{CanFrame}
use yacob.Nmt.{pre_operational, operational}
use yacob.Sdo.Server.State.{
  download, segmented, SdoServer, new_server, silent, empty_buf, BlockDownloadState,
}
use yacob.Sdo.Server.Invariant.{IsSafeOutcome}
use yacob.Sdo.Server.Safety.{new_server-IsWf, process_with_context-IsSafe}
use yacob.Sdo.Server.Session.{
  ServerInput, request, poll, timeout, reset, taken, application, serve_all, serve_all-IsSafe,
}
use yacob.Sdo.Server.Process.{end_on_abort, is_block_segment, dispatch, process_with_context}
use yacob.Sdo.Server.Effects.{Effect}
use yacob.Sdo.Server.Effects.Requests.{process_with_context-Effect}
use yacob.Sdo.Server.Effects.Guarantees.{process_with_context-abort_ends, download-unlocked}
use yacob.Sdo.Server.Segmented.{
  handle_upload_segment, handle_download_segment, download_segment, segment_refusal,
  segment_payload, commit,
}
use yacob.Sdo.Server.Block.{finish_block_download}
use yacob.Sdo.Validate.{
  sdo_claims, validate_sync_counter_overflow_write, validate_sync_cob_id_write,
  validate_pdo_cob_id_write, validate_heartbeat_consumer_write, validate_download,
  is_pdo_config_index,
}
use yacob.Sdo.Protocol.{
  encode_download_segment_response, command_specifier, parse_index_sub, encode_abort,
  encode_sdo_abort,
}
use yacob.Sdo.Client.{SdoClient, new_client, start_upload, start_download}
use yacob.Sdo.Exchange.{exchange}
use yacob.Sdo.Exchange.Upload.{Delivers}
use yacob.Sdo.Exchange.Download.{Stores}
use yacob.Sdo.Exchange.Storing.{download-Stores}
use yacob.Sdo.Exchange.Delivery.{upload-Delivers}
use yacob.Examples.{ok, strings, strings-ReadFits, text, context, read_string}

abbrev client : SdoClient
client = new_client 16 5

abbrev filled : List ℕ
filled = write_at empty_buf 0 text

upload-Delivers_example :
    (f : CanFrame) × ((start_upload client 0x2000 0).1 ≡ some f)
    × Delivers 10 filled text (
        exchange strings 4 16
          (λ round. context operational)
          3
          (start_upload client 0x2000 0).0
          (record { transfer = none; committed_write = none })
          text
          []
          f.bytes)
unfolding new_client read_string empty_buf write_at
upload-Delivers_example =
    upload-Delivers strings 4 16 (λ round. context operational) 2 client none 0x2000 0 text [] 10
      filled (omega arith) (omega arith) refl refl refl (omega arith) (omega arith) (omega arith)
      (omega arith)

-- Requests: an expedited download of 0x11 to 0x2000:0, one to 0x1800:1, the first frame of a block
-- upload, its start, and a segment without a transfer.
abbrev write_byte : Bytes8
write_byte = of_list (0x2F ∷ 0x00 ∷ 0x20 ∷ 0x00 ∷ 0x11 ∷ [])

abbrev block_request : Bytes8
block_request = of_list (0xA0 ∷ 0x00 ∷ 0x20 ∷ 0x00 ∷ 0x02 ∷ [])

abbrev block_start : Bytes8
block_start = of_list (0xA3 ∷ [])

abbrev stray_segment : Bytes8
stray_segment = of_list (0x60 ∷ [])

abbrev session : List (ServerInput (List ℕ))
session =
    request block_request (context operational)
    ∷ request block_start (context operational)
    ∷ poll 2000
    ∷ poll 3000
    ∷ application [] []
    ∷ timeout 9000000
    ∷ request stray_segment (context pre_operational)
    ∷ reset
    ∷ taken
    ∷ []

serve_all-IsSafe_example : IsSafeOutcome (
    serve_all strings 4
      (record { server = new_server; od = text; events = []; reply = silent })
      session)
serve_all-IsSafe_example = serve_all-IsSafe strings 4 text [] session strings-ReadFits

process_with_context-IsSafe_example :
    IsSafeOutcome
      (process_with_context strings 4 new_server block_request text [] (context operational))
process_with_context-IsSafe_example =
    process_with_context-IsSafe strings 4 new_server block_request text [] (context operational)
      strings-ReadFits new_server-IsWf

process_with_context-Effect_example :
    Effect strings 4 new_server.committed_write text []
      (context operational)
      (process_with_context strings 4 new_server write_byte text [] (context operational))
process_with_context-Effect_example =
    process_with_context-Effect strings 4 new_server write_byte text [] (context operational)

process_with_context-abort_ends_example :
    (process_with_context strings 4 new_server stray_segment text []
      (context operational)).server.transfer
    ≡ none
unfolding process_with_context dispatch is_block_segment end_on_abort handle_upload_segment
    command_specifier encode_abort encode_sdo_abort parse_index_sub new_server
process_with_context-abort_ends_example =
    process_with_context-abort_ends strings 4 new_server stray_segment text [] (context operational)
      refl

-- A segmented download of 0x1800:1 that began before the node became Operational.
abbrev running : SdoServer
running = record {
  transfer = some (
      segmented (record {
        index = 0x1800;
        subindex = 1;
        toggle = false;
        direction = download;
        buf = empty_buf;
        offset = 0;
        total_len = 4;
        size_indicated = true;
        last_activity_us = 0;
      }));
  committed_write = none;
}

-- The segment that ends it, with the COB-ID 0x187.
abbrev last_segment : Bytes8
last_segment = of_list (0x07 ∷ 0x87 ∷ 0x01 ∷ 0x00 ∷ 0x00 ∷ [])

abbrev running_block : BlockDownloadState
running_block = record {
  index = 0x1800;
  subindex = 1;
  buf = empty_buf;
  offset = 7;
  total_len = 4;
  size_indicated = true;
  blksize = 127;
  seqno = 1;
  awaiting_end = true;
  crc_enabled = false;
  last_activity_us = 0;
}

abbrev end_block : Bytes8
end_block = of_list (0xCD ∷ [])

download-unlocked_example :
    (handle_download_segment strings 4 running end_block text []
        (record (context pre_operational) { nmt_state = operational })
      ≡ handle_download_segment strings 4 running end_block text [] (context pre_operational))
    × (finish_block_download strings 4 running running_block end_block text []
          (record (context pre_operational) { nmt_state = operational })
        ≡ finish_block_download strings 4 running running_block end_block text []
            (context pre_operational))
download-unlocked_example =
    download-unlocked strings 4 running running_block end_block text [] (context pre_operational)
      operational

-- The value is written although the node is Operational.
written_while_operational :
    (process_with_context strings 4 running last_segment text [] (context operational)).od
    ≡ 0x87 ∷ 0x01 ∷ 0x00 ∷ 0x00 ∷ []
unfolding process_with_context dispatch is_block_segment end_on_abort handle_download_segment
    download_segment segment_refusal commit command_specifier segment_payload empty_buf write_at
    validate_download validate_heartbeat_consumer_write validate_pdo_cob_id_write
    validate_sync_cob_id_write validate_sync_counter_overflow_write sdo_claims contains
    encode_download_segment_response
written_while_operational = refl

-- The text is accepted in every context of the exchange.
text_accepted : (r : ℕ) → validate_download strings [] (context operational) 0x2000 0 text ≡ ok tt
unfolding validate_download validate_heartbeat_consumer_write validate_pdo_cob_id_write
    validate_sync_cob_id_write validate_sync_counter_overflow_write
text_accepted r = refl

download-Stores_example :
    (f : CanFrame) × ((start_download 16 client 0x2000 0 text).1 ≡ ok (some f))
    × Stores 0x2000 0 4 [] text (
        exchange strings 4 16
          (λ round. context operational)
          3
          (start_download 16 client 0x2000 0 text).0
          (record { transfer = none; committed_write = none })
          []
          []
          f.bytes)
unfolding new_client is_pdo_config_index
download-Stores_example =
    download-Stores strings 4 16 (λ round. context operational) 2 client none 0x2000 0 [] text []
      text (omega arith) (omega arith) refl (omega arith) (omega arith) refl text_accepted refl
      (omega arith) (omega arith)
