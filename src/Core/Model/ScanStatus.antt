-- ===== src/Core/Model/ScanStatus.antt =====
-- pkg/core/model/scanstatus.go.
use perceptor.Prelude.{◌≡◌, ◌↔◌, Bool, true, false, String, Eq, arith}

pub data ScanStatus : Type 0 where
  unknown in_queue running_scan_client running_hub_scan complete : ScanStatus

unfoldable pub status_string : ScanStatus → String
status_string unknown = "ScanStatusUnknown"
status_string in_queue = "ScanStatusInQueue"
status_string running_scan_client = "ScanStatusRunningScanClient"
status_string running_hub_scan = "ScanStatusRunningHubScan"
status_string complete = "ScanStatusComplete"

-- The table `legalTransitions`: a pair that it does not name reads as false.
unfoldable pub legal_transitions : ScanStatus → ScanStatus → Bool
legal_transitions unknown in_queue = true
legal_transitions unknown running_hub_scan = true
legal_transitions unknown complete = true
legal_transitions in_queue running_scan_client = true
legal_transitions in_queue running_hub_scan = true
legal_transitions running_scan_client in_queue = true
legal_transitions running_scan_client running_hub_scan = true
legal_transitions running_hub_scan in_queue = true
legal_transitions running_hub_scan complete = true
legal_transitions from to = false

-- Every status has its row in the table, so the lookup never panics.
unfoldable pub is_legal_transition : ScanStatus → ScanStatus → Bool
unfolding legal_transitions
is_legal_transition from to = legal_transitions from to

abbrev pub status_beq : ScanStatus → ScanStatus → Bool
status_beq unknown unknown = true
status_beq in_queue in_queue = true
status_beq running_scan_client running_scan_client = true
status_beq running_hub_scan running_hub_scan = true
status_beq complete complete = true
status_beq a b = false

pub status_beq_iff : (a b : ScanStatus) → (status_beq a b ≡ true) ↔ (a ≡ b)
status_beq_iff a b = ground arith

instance abbrev pub status_eq : Eq ScanStatus
status_eq = record { beq = status_beq; beq_iff = status_beq_iff }
