-- ===== src/Traffic/Congestion.antt =====
-- `handle_device_congestion` and `handle_link_congestion` of
-- backend/services/traffic/v2_congestion.py. A utilization and a threshold are thousandths, and the
-- fields of the events that a floating point division gives are left out.
use unoc_network_simulator.Prelude.{
  ℕ, Bool, Option, none, some, List, [], ◌∷◌, ◌++◌, ◌==◌, leb, if◌then◌else◌, find,
}
use unoc_network_simulator.Prelude.Sets.{contains, add}

-- One entry of `device_changes` or `link_changes`.
pub record Load : Type 0 where
  pub id : ℕ
  pub bps : ℕ
  pub utilization : ℕ

pub data Subject : Type 0 where
  a_device a_link : Subject

pub data Change : Type 0 where
  detected cleared : Change

pub record CongestionEvent : Type 0 where
  pub subject : Subject
  pub change : Change
  pub id : ℕ
  pub aggregated_bps : ℕ
  pub tick : ℕ

pub record Thresholds : Type 0 where
  pub detect : ℕ
  pub clear : ℕ

-- What is over the threshold goes into the set; what was in it before has the lower threshold.
abbrev pub is_over : Thresholds → List ℕ → Load → Bool
is_over h prev x =
    if contains x.id prev then leb h.clear x.utilization else leb h.detect x.utilization

-- The first loop: the set of the tick.
unfoldable pub congested : Thresholds → List ℕ → List Load → List ℕ → List ℕ
congested h prev [] current = current
congested h prev (x ∷ xs) current =
    congested h prev xs (if is_over h prev x then add x.id current else current)

abbrev event : Subject → Change → ℕ → ℕ → ℕ → CongestionEvent
event s c i bps tick = record { subject = s; change = c; id = i; aggregated_bps = bps; tick = tick }

-- The first loop: an event for each entry that is over the threshold and was not in the set.
unfoldable pub detections : Subject → Thresholds → List ℕ → List Load → ℕ → List CongestionEvent
detections s h prev [] tick = []
detections s h prev (x ∷ xs) tick =
    let rest = detections s h prev xs tick in
    if contains x.id prev
    then rest
    else if leb h.detect x.utilization
    then event s detected x.id x.bps tick ∷ rest
    else rest

abbrev bps_of : Option Load → ℕ
bps_of none = 0
bps_of (some x) = x.bps

-- The second loop: an event for each member of the old set that is not in the new one.
unfoldable pub clearings : Subject → List Load → List ℕ → ℕ → List ℕ → List CongestionEvent
clearings s changes current tick [] = []
clearings s changes current tick (i ∷ is) =
    let rest = clearings s changes current tick is in
    if contains i current
    then rest
    else event s cleared i (bps_of (find (λ x. x.id == i) changes)) tick ∷ rest

abbrev pub handle : Subject → List ℕ → List Load → Thresholds → ℕ → List ℕ × List CongestionEvent
handle s prev changes h tick =
    let current = congested h prev changes [] in
    (current, detections s h prev changes tick ++ clearings s changes current tick prev)

unfoldable pub handle_device_congestion :
    List ℕ → List Load → Thresholds → ℕ → List ℕ × List CongestionEvent
handle_device_congestion prev changes h tick = handle a_device prev changes h tick

unfoldable pub handle_link_congestion :
    List ℕ → List Load → Thresholds → ℕ → List ℕ × List CongestionEvent
handle_link_congestion prev changes h tick = handle a_link prev changes h tick
