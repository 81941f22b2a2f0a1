-- ===== src/Examples/Nodes.antt =====
-- A device with one SDO server and one TPDO, over a dictionary that keeps a number of 16 bits.
use yacob.Base.{
  ℕ, ◌≡◌, ◌⊎◌, inl, refl, arith, true, false, List, [], ◌∷◌, ◌++◌, length, get_or, none, some,
}
use yacob.Base.Bytes.{of_list, from_le16}
use yacob.Base.Results.{ok, err}
use yacob.Can.{CanFrame}
use yacob.Sdo.Od.{not_found, ObjectDictionary}
use yacob.Node.{Node, no_pending, Sent, taken, application}
use yacob.Node.Config.{request_reset}
use yacob.Node.Dispatch.{
  handle_nmt, dispatch_frame, channel_for, dispatch_fixed, handle_sdo_request,
}
use yacob.Node.Reset.{handle_nmt-request_reset}
use yacob.Node.Process.{process_node}
use yacob.Node.Cycle.{Kept}
use yacob.Node.Returns.{process_node_stopped}
use yacob.Node.Gates.{Untouched, dispatch_frame-Untouched}
use yacob.Nmt.{NmtState, stopped, operational}
use yacob.Pdo.{default_tpdo}
use yacob.Pdo.Tpdo.{TpdoSlot}
use yacob.Pdo.Rpdo.{new_rpdos}
use yacob.Sync.{new_consumer, new_window, consumer_cob_id}
use yacob.Heartbeat.{new_producer}
use yacob.Emcy.{new_emcy}
use yacob.Lss.{new_slave}
use yacob.Sdo.Server.State.{new_server}

abbrev dictionary : ObjectDictionary ℕ
dictionary = record {
  lookup = λ od index subindex. none;
  read = λ od index subindex buf. (err not_found, buf);
  write = λ od index subindex bytes. (ok tt, from_le16 (get_or bytes 0 0) (get_or bytes 1 0));
  sub_count = λ od index. none;
  validate_write = λ od index subindex bytes. ok tt;
}

-- A transport that keeps what it is given.
abbrev transport : List CanFrame → CanFrame → List CanFrame × Sent
transport sent f = (sent ++ f ∷ [], taken)

abbrev latched : TpdoSlot
latched = record {
  pdo = default_tpdo;
  sync_counter = 1;
  last_send_us = 1000;
  sync_event_pending = true;
  async_event_pending = true;
}

abbrev device : NmtState → Node ℕ
device state = record {
  node_id = 5;
  od = 0x1234;
  nmt = record { state = state };
  default = record { server = new_server; pending = no_pending; rx = 0x605; tx = 0x585 };
  extra = [];
  tpdo = latched ∷ [];
  rpdo = new_rpdos [];
  sync = new_consumer 0x80;
  sync_producer = record {
    cob_id = 0;
    interval_us = 0;
    overflow = 0;
    last_sent_us = 0;
    armed = false;
    counter = 0;
  };
  sync_window = new_window;
  pending_sync_tpdo = [];
  sync_tpdo_last_attempt_us = none;
  heartbeat = new_producer 5 0;
  hb_monitors = none ∷ [];
  hb_event_queue = [];
  emcy = new_emcy 5;
  lss = new_slave (record { vendor_id = 1; product_code = 2; revision = 3; serial = 4 }) 5;
  booted = true;
  auto_start = false;
  event_queue = [];
  event_capacity = 4;
  dirty_set = (0x6401, 1) ∷ [];
  dirty_capacity = 4;
  event_overflow_count = 0;
  reset_event = none;
}

abbrev frame : ℕ → List ℕ → CanFrame
frame id bytes = record { id = id; dlc = length bytes; bytes = of_list bytes }

handle_nmt-request_reset_example :
    handle_nmt dictionary transport (device operational) (frame 0 (0x81 ∷ 0 ∷ []))
    ≡ request_reset dictionary (device operational) application
handle_nmt-request_reset_example =
    handle_nmt-request_reset dictionary transport (device operational) (frame 0 (0x81 ∷ 0 ∷ []))
      application refl refl (inl refl) refl

-- An SDO request that a stopped device receives, and what is left of the device and the transport.
abbrev request : CanFrame
request = frame 0x605 (0x2B ∷ 1 ∷ 0x64 ∷ 1 ∷ 7 ∷ 0 ∷ 0 ∷ 0 ∷ [])

abbrev after_request : Node ℕ × List CanFrame
after_request = elim (dispatch_frame dictionary transport (device stopped) request 2000 []) [
  | none ↦ (device operational, [])
  | some r ↦ r
]

dispatch_frame-Untouched_example :
    Untouched (device stopped) after_request.0
    × ((request.id ≡ 0) ⊎ (after_request.0.nmt ≡ (device stopped).nmt))
unfolding dispatch_frame channel_for dispatch_fixed handle_sdo_request consumer_cob_id new_consumer
dispatch_frame-Untouched_example =
    dispatch_frame-Untouched dictionary transport (device stopped) request 2000 [] after_request
      refl (inl refl) refl

-- The same request, a SYNC and process data, in one call.
abbrev received : List CanFrame
received = request ∷ frame 0x80 [] ∷ frame 0x185 (1 ∷ 2 ∷ []) ∷ []

process_node_stopped_example :
    (r : Node ℕ × List CanFrame) × ((process_node dictionary transport
          (device stopped)
          2000
          received
          []
        ≡ some r)
      × Kept (device stopped) r.0)
unfolding new_server new_producer
process_node_stopped_example =
    process_node_stopped dictionary transport (device stopped) 2000 received [] refl refl
      (ground arith, (ground arith, (ground arith, _))) ((refl, refl), _, omega arith)
