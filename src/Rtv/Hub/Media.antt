-- ===== src/Rtv/Hub/Media.antt =====
-- src/rtv/relay.go: the fan-out of a media packet, with the counters of the host session. The counters count
-- from zero and do not wrap here; the capture time is read as an int64, so that one with its top bit
-- set is negative and not used.
use native.Mathlib.Nat.{suc-mul}
use xnc.Prelude.{
  ℕ, suc, ◌+◌, ◌-◌, ◌*◌, ◌/◌, ◌≤◌, ◌<◌, ◌≡◌, refl, ap, ◌∙◌, inl, inr, Bool, ◌&&◌, Option, none,
  some, List, [], ◌∷◌, map, length, take, drop, ltb, leb, ◌==◌, if◌then◌else◌, arith, Bool-cases,
}
use xnc.Prelude.Map.{Map}
use xnc.Rtv.Hub.{Viewer}

pub record MediaStats : Type 0 where
  pub rx_packets : ℕ
  pub rx_bytes : ℕ
  pub tx_packets : ℕ
  pub tx_bytes : ℕ
  pub frames_seen : ℕ
  pub last_capture : ℕ
  pub latency_ema : ℕ

-- binary.LittleEndian
abbrev pub little_endian : List ℕ → ℕ
little_endian [] = 0
little_endian (b ∷ bs) = b + 256 * little_endian bs

abbrev pub capture_time : List ℕ → Option ℕ
capture_time data_bytes =
    let t = little_endian (take 8 (drop 24 data_bytes)) in
    if leb 32 (length data_bytes) && (ltb 0 t && ltb t 9223372036854775808) then some t else none

-- One step of the moving average, from `old` with the sample `d`; the division of a negative
-- difference is towards zero.
abbrev pub ema_step : (old d : ℕ) → ℕ
ema_step old d =
    if old == 0 then d else if leb old d then old + (d - old) / 8 else old - (old - d) / 8

abbrev pub sample : (captured now : ℕ) → MediaStats → MediaStats
sample captured now st =
    let d = now - captured in
    let st' : MediaStats = record st { last_capture = captured } in
    if ltb captured now && ltb d 60000000
    then record st' { latency_ema = ema_step st.latency_ema d }
    else st'

-- The packet to each viewer; `reaches` tells where the send succeeded.
abbrev pub deliver : (reaches : ℕ → Bool) → (size : ℕ) → Map ℕ Viewer → MediaStats → MediaStats
deliver reaches size [] st = st
deliver reaches size ((id, w) ∷ ws) st = deliver reaches size ws (
    if reaches w.id
    then record st { tx_packets = suc st.tx_packets; tx_bytes = st.tx_bytes + size }
    else st)

abbrev pub sample_capture : Option ℕ → (now : ℕ) → MediaStats → MediaStats
sample_capture none now st = st
sample_capture (some t) now st = sample t now st

abbrev pub see_frame : Map ℕ Viewer → MediaStats → MediaStats
see_frame [] st = st
see_frame (w ∷ ws) st = record st { frames_seen = suc st.frames_seen }

unfoldable pub fanout_media :
    (data_bytes : List ℕ)
    → (now : ℕ) → (reaches : ℕ → Bool) → Map ℕ Viewer
    → MediaStats
    → MediaStats × List (ℕ × List ℕ)
fanout_media data_bytes now reaches ws st =
    let size = length data_bytes in
    let st1 : MediaStats = record st {
      rx_packets = suc st.rx_packets;
      rx_bytes = st.rx_bytes + size;
    } in
    let st2 = sample_capture (capture_time data_bytes) now st1 in
    (deliver reaches size ws (see_frame ws st2), map (λ e. (e.1.id, data_bytes)) ws)

ema_step-bounds : (old d limit : ℕ) → old < limit → d < limit → ema_step old d < limit
ema_step-bounds old d limit h k = ground arith

abbrev delivered : ℕ → MediaStats → MediaStats
delivered size st = record st { tx_packets = suc st.tx_packets; tx_bytes = st.tx_bytes + size }

deliver-bounds :
    (reaches : ℕ → Bool) (size : ℕ) (ws : Map ℕ Viewer) (st : MediaStats)
    → let st' = deliver reaches size ws st in
      (st'.latency_ema ≡ st.latency_ema)
      × (st'.tx_packets ≤ st.tx_packets + length ws)
      × (st'.tx_bytes + st.tx_packets * size ≡ st.tx_bytes + st'.tx_packets * size)
deliver-bounds reaches size [] st = (refl, omega arith, refl)
deliver-bounds reaches size ((id, w) ∷ ws) st =
    let sent = deliver-bounds reaches size ws (delivered size st) in
    let lost = deliver-bounds reaches size ws st in
    let step = suc-mul st.tx_packets size in
    elim (Bool-cases (reaches w.id)) [
      | inl e ↦ rw (deliver, e) (sent.0, omega (arith, sent.1), omega (arith, sent.2, step))
      | inr e ↦ rw (deliver, e) (lost.0, omega (arith, lost.1), lost.2)
    ]

latency-sample :
    (t : Option ℕ) (now limit : ℕ) (st : MediaStats)
    → 60000000 ≤ limit
    → st.latency_ema < limit
    → (sample_capture t now st).latency_ema < limit
latency-sample none now limit st le h = h
latency-sample (some t) now limit st le h =
    let step = ema_step-bounds st.latency_ema (now - t) limit h in ground arith

unsent-sample :
    (t : Option ℕ) (now : ℕ) (st : MediaStats)
    → ((sample_capture t now st).tx_packets ≡ st.tx_packets)
      × ((sample_capture t now st).tx_bytes ≡ st.tx_bytes)
unsent-sample none now st = (refl, refl)
unsent-sample (some t) now st = (ground arith, ground arith)

see_frame-same :
    (ws : Map ℕ Viewer) (st : MediaStats)
    → ((see_frame ws st).latency_ema ≡ st.latency_ema)
      × ((see_frame ws st).tx_packets ≡ st.tx_packets)
      × ((see_frame ws st).tx_bytes ≡ st.tx_bytes)
see_frame-same [] st = (refl, refl, refl)
see_frame-same (w ∷ ws) st = (refl, refl, refl)

-- A packet keeps the moving average of the latency below 60,000,000 microseconds, whatever its bytes
-- and the clock say; it counts at most one packet sent for each viewer, and for each packet it counts
-- as sent, the bytes of the packet.
pub fanout_media-bounds :
    (data_bytes : List ℕ) (now : ℕ) (reaches : ℕ → Bool) (ws : Map ℕ Viewer) (st : MediaStats)
    → st.latency_ema < 60000000
    → let st' = (fanout_media data_bytes now reaches ws st).0 in
      let size = length data_bytes in
      (st'.latency_ema < 60000000)
      × (st'.tx_packets ≤ st.tx_packets + length ws)
      × (st'.tx_bytes + st.tx_packets * size ≡ st.tx_bytes + st'.tx_packets * size)
unfolding fanout_media
fanout_media-bounds data_bytes now reaches ws st h =
    let size = length data_bytes in
    let st1 : MediaStats = record st {
      rx_packets = suc st.rx_packets;
      rx_bytes = st.rx_bytes + size;
    } in
    let t = capture_time data_bytes in
    let st2 = sample_capture t now st1 in
    let (ema, packets, bytes) = see_frame-same ws st2 in
    let below = latency-sample t now 60000000 st1 (omega arith) h in
    let (p, q) = unsent-sample t now st1 in
    let (ema', most, all_bytes) = deliver-bounds reaches size ws (see_frame ws st2) in
    let before : (see_frame ws st2).tx_packets ≡ st.tx_packets = packets ∙ p in
    let before_bytes : (see_frame ws st2).tx_bytes ≡ st.tx_bytes = bytes ∙ q in
    (
      omega (arith, ema', ema, below),
      omega (arith, most, before),
      omega (arith, all_bytes, before_bytes, ap (λ k. k * size) before),
    )
