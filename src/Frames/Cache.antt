-- ===== src/Frames/Cache.antt =====
-- The keyframe cache, which a new session is given first.
use selkies_core.Prelude.{
  ℕ, ◌≡◌, refl, sym, ap, ◌∙◌, Bool, true, false, List, [], ◌∷◌, ◌++◌, append_assoc, append-nil,
  Bytes, All, All-append, arith, if◌then◌else◌, Bool-cases, unwrap_or, ◌⊎◌, inl, inr,
}
use selkies_core.Rtp.{get_timestamp}
use selkies_core.Frames.{
  FrameState, is_h264_keyframe_packet, has_marker, mark_last, track_keyframe, send_packet, send_all,
  flush_if, hold, frame_ended, ends_marked, pull_sample, flush_late, pull_and_broadcast_rtp,
}

abbrev pub StartsKeyframe : List Bytes → Type 0
StartsKeyframe [] = ⊥
StartsKeyframe (p ∷ ps) = is_h264_keyframe_packet p ≡ true

abbrev IsUnmarked : Bytes → Type 0
IsUnmarked p = has_marker p ≡ false

-- One whole frame that starts with a keyframe packet, and was broadcast as it stands.
pub record IsReplayable (cache sent : List Bytes) : Type 0 where
  pub body : List Bytes
  pub last : Bytes
  pub before : List Bytes
  pub after : List Bytes
  pub cache_is : cache ≡ body ++ last ∷ []
  pub starts : StartsKeyframe cache
  pub unmarked : All IsUnmarked body
  pub marked : has_marker last ≡ true
  pub sent_is : sent ≡ before ++ (cache ++ after)

-- The packets of a keyframe that is under way.
pub record IsCollecting (buf sent : List Bytes) : Type 0 where
  pub before : List Bytes
  pub starts : StartsKeyframe buf
  pub unmarked : All IsUnmarked buf
  pub sent_is : sent ≡ before ++ buf

pub record CacheInv (s : FrameState) : Type 0 where
  pub collecting : s.in_keyframe ≡ true → IsCollecting s.keyframe_buf s.sent
  pub cached : (s.keyframe_cache ≡ []) ⊎ IsReplayable s.keyframe_cache s.sent

StartsKeyframe-append : (xs ys : List Bytes) → StartsKeyframe xs → StartsKeyframe (xs ++ ys)
StartsKeyframe-append [] ys h = elim h [ ]
StartsKeyframe-append (x ∷ xs) ys h = h

IsReplayable-send :
    (c sent : List Bytes) (p : Bytes)
    → (c ≡ []) ⊎ IsReplayable c sent
    → (c ≡ []) ⊎ IsReplayable c (sent ++ p ∷ [])
IsReplayable-send c sent p (inl e) = inl e
IsReplayable-send c sent p (inr r) = inr (record {
  body = r.body;
  last = r.last;
  before = r.before;
  after = r.after ++ p ∷ [];
  cache_is = r.cache_is;
  starts = r.starts;
  unmarked = r.unmarked;
  marked = r.marked;
  sent_is =
      ap (λ l. l ++ p ∷ []) r.sent_is
      ∙ append_assoc r.before (c ++ r.after) (p ∷ [])
      ∙ ap (◌++◌ r.before) (append_assoc c r.after (p ∷ []));
})

-- The three things that one packet can do.
module _ (s : FrameState) (p : Bytes) (v : CacheInv s) where
  -- It ends a keyframe, which `buf` has collected before it.
  ends :
      (buf before : List Bytes)
      → StartsKeyframe (buf ++ p ∷ [])
      → All IsUnmarked buf
      → s.sent ≡ before ++ buf
      → has_marker p ≡ true
      → IsReplayable (buf ++ p ∷ []) (s.sent ++ p ∷ [])
  ends buf before starts un is m = record {
    body = buf;
    last = p;
    before = before;
    after = [];
    cache_is = refl;
    starts = starts;
    unmarked = un;
    marked = m;
    sent_is = rw (is, append-nil (buf ++ p ∷ [])) (append_assoc before buf (p ∷ []));
  }

  goes_on :
      (buf before : List Bytes)
      → StartsKeyframe (buf ++ p ∷ [])
      → All IsUnmarked buf
      → s.sent ≡ before ++ buf
      → has_marker p ≡ false
      → IsCollecting (buf ++ p ∷ []) (s.sent ++ p ∷ [])
  goes_on buf before starts un is m = record {
    before = before;
    starts = starts;
    unmarked = All-append IsUnmarked buf (p ∷ []) un (m, tt);
    sent_is = rw is (append_assoc before buf (p ∷ []));
  }

  -- The packet is the first of a keyframe, or goes on with one: `buf` is what was collected so far.
  tracked :
      (buf before : List Bytes)
      → track_keyframe s p ≡ (
          if has_marker p
          then record s {
            keyframe_buf = buf ++ p ∷ [];
            keyframe_cache = buf ++ p ∷ [];
            in_keyframe = false;
          }
          else record s { keyframe_buf = buf ++ p ∷ []; in_keyframe = true })
      → StartsKeyframe (buf ++ p ∷ [])
      → All IsUnmarked buf
      → s.sent ≡ before ++ buf
      → CacheInv (send_packet s p)
  unfolding send_packet
  tracked buf before e starts un is = elim (Bool-cases (has_marker p)) [
    | inl m ↦
        rw (e, m) (record { collecting = λ h. cc; cached = inr (ends buf before starts un is m) })
    | inr m ↦
        rw (e, m)
          (record {
            collecting = λ h. goes_on buf before starts un is m;
            cached = IsReplayable-send s.keyframe_cache s.sent p v.cached;
          })
  ]

  send_packet-CacheInv : CacheInv (send_packet s p)
  send_packet-CacheInv = elim (Bool-cases s.in_keyframe) [
    | inl inside ↦
        let c = v.collecting inside in
        tracked s.keyframe_buf c.before (unfold track_keyframe in ground arith)
          (StartsKeyframe-append s.keyframe_buf (p ∷ []) c.starts) c.unmarked c.sent_is
    | inr outside ↦ elim (Bool-cases (is_h264_keyframe_packet p)) [
      | inl begins ↦
          tracked [] s.sent (unfold track_keyframe in ground arith) begins tt
            (sym (append-nil s.sent))
      | inr plain ↦
          let e : track_keyframe s p ≡ s = unfold track_keyframe in ground arith in
          untracked e outside
    ]
  ]
    where
      untracked : track_keyframe s p ≡ s → s.in_keyframe ≡ false → CacheInv (send_packet s p)
      untracked e outside =
          unfold send_packet in
          rw e (record {
            collecting = λ h. cc;
            cached = IsReplayable-send s.keyframe_cache s.sent p v.cached;
          })

send_all-CacheInv : (ps : List Bytes) (s : FrameState) → CacheInv s → CacheInv (send_all s ps)
unfolding send_all
send_all-CacheInv [] s v = v
send_all-CacheInv (p ∷ ps) s v = send_all-CacheInv ps (send_packet s p) (send_packet-CacheInv s p v)

flush_if-CacheInv : (b : Bool) (s : FrameState) → CacheInv s → CacheInv (flush_if b s)
unfolding flush_if
flush_if-CacheInv true s v =
    send_all-CacheInv (mark_last s.frame_buf) (record s { frame_buf = [] })
      (record { collecting = v.collecting; cached = v.cached })
flush_if-CacheInv false s v = v

pull_sample-CacheInv :
    (s : FrameState) (now : ℕ) (p : Bytes) → CacheInv s → CacheInv (pull_sample s (now, p))
unfolding pull_sample
pull_sample-CacheInv s now p v =
    let ts = unwrap_or (get_timestamp p) 0 in
    let s1 = flush_if (frame_ended s.prev_ts ts s.frame_buf) s in
    let held = hold s1 ts now p in
    let w = flush_if-CacheInv (frame_ended s.prev_ts ts s.frame_buf) s v in
    flush_if-CacheInv (ends_marked held.frame_buf) held
      (record { collecting = w.collecting; cached = w.cached })

-- Whatever samples come in: the keyframe cache is empty, or holds the packets of one frame that
-- starts with a keyframe packet, whose last packet and no other has the marker, as they were
-- broadcast, one right after the other. The same is kept of a keyframe that is under way.
pub pull_and_broadcast_rtp-CacheInv :
    (xs : List (ℕ × Bytes)) (s : FrameState) (now : ℕ)
    → CacheInv s
    → CacheInv (pull_and_broadcast_rtp s xs now)
unfolding pull_and_broadcast_rtp flush_late
pull_and_broadcast_rtp-CacheInv [] s now v = flush_if-CacheInv _ s v
pull_and_broadcast_rtp-CacheInv ((t, p) ∷ xs) s now v =
    pull_and_broadcast_rtp-CacheInv xs (pull_sample s (t, p)) now (pull_sample-CacheInv s t p v)
