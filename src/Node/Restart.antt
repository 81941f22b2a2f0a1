-- ===== src/Node/Restart.antt =====
-- When a reset of a node succeeds (canopen-core/src/node.rs, `request_reset`).
use yacob.Base.{ℕ, ◌+◌, ◌≤◌, ◌⊎◌, ◌==◌, ◌||◌, ◌&&◌, Bool, false, ◌≡◌, get_or, replicate}
use yacob.Sdo.Od.{ObjectDictionary}
use yacob.Sync.{is_supported_sync_cob_id}
use yacob.Node.{Node}
use yacob.Node.Config.{is_ok, le32_of}

-- An entry of 0x1005 names an 11-bit COB-ID other than 0, with bit 30 (the node produces SYNC) or
-- without; an entry of 0x1019 is 0 or lies in 2..=240.
abbrev pub IsSyncEntry : ℕ → Type 0
IsSyncEntry raw =
    (cob : ℕ) × ((1 ≤ cob) × (cob ≤ 0x7FF) × ((raw ≡ cob) ⊎ (raw ≡ 0x4000_0000 + cob)))

abbrev pub IsCounterEntry : ℕ → Type 0
IsCounterEntry value = (value ≡ 0) ⊎ ((2 ≤ value) × (value ≤ 240))

-- Both objects of the dictionary are such entries, or missing.
abbrev pub HasSync : {O : Type 0} → ObjectDictionary O → O → Type 0
HasSync dict od =
    let cob = dict.read od 0x1005 0 (replicate 4 0) in
    let counter = dict.read od 0x1019 0 (replicate 1 0) in
    ((is_ok cob.0 ≡ false) ⊎ IsSyncEntry (le32_of cob.1))
    × ((is_ok counter.0 ≡ false) ⊎ IsCounterEntry (get_or counter.1 0 0))

-- Such entries are served, with and without bit 30.
is_served : ℕ → Bool
is_served cob =
    cob == 0 || (is_supported_sync_cob_id cob && is_supported_sync_cob_id (0x4000_0000 + cob))
