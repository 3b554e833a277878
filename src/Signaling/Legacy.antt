-- ===== src/Signaling/Legacy.antt =====
-- src/webrtc/signaling.rs: the legacy form written and read back, and the texts on which the parser
-- panics.
use selkies_core.Prelude.{
  ℕ, suc, ◌≡◌, refl, ap, ◌∙◌, [], ◌∷◌, ◌++◌, none, some, Text, codes, same, starts_with,
  is_whitespace, strip_prefix, trim, split_once, split_once-append, Free, ok,
}
use selkies_core.Signaling.{
  SignalingMessage, Parsed, splitn, parse_legacy, legacy_command, on_legacy, legacy_offer,
  legacy_answer, legacy_ice, legacy_keyframe, legacy_close, parse,
}
use selkies_core.Signaling.Trimmed.{trim_end, trim_end-append, Free-trim_end}

-- No comma, so that `split_once` finds none.
split_once-Free : (c : ℕ) (s : Text) → Free c s → split_once c s ≡ none
unfolding split_once
split_once-Free c [] f = refl
split_once-Free c (x ∷ s) f = rw (f.0, split_once-Free c s f.1) refl

splitn-append :
    (n c : ℕ) (p s : Text)
    → Free c p
    → splitn (suc (suc n)) c (p ++ (c ∷ s)) ≡ p ∷ splitn (suc n) c s
unfolding splitn
splitn-append n c p s f = rw (splitn, split_once-append c p s f) refl

splitn-Free : (n c : ℕ) (p : Text) → Free c p → splitn (suc (suc n)) c p ≡ p ∷ []
unfolding splitn
splitn-Free n c p f = rw (splitn, split_once-Free c p f) refl

-- What a client may write in the legacy form.
pub data LegacyMessage : Type 0 where
  offer : Text → LegacyMessage
  offer_for : Text → Text → LegacyMessage
  answer : Text → Text → LegacyMessage
  ice : Text → Text → LegacyMessage
  keyframe : Text → LegacyMessage
  close : Text → LegacyMessage
  close_for : Text → Text → LegacyMessage

abbrev one : Text → Text → Text
one cmd a = codes "webrtc" ++ (b',' ∷ (cmd ++ (b',' ∷ a)))

abbrev two : Text → Text → Text → Text
two cmd a b = one cmd (a ++ (b',' ∷ b))

abbrev pub legacy_text : LegacyMessage → Text
legacy_text (LegacyMessage.offer sdp) = one (codes "offer") sdp
legacy_text (LegacyMessage.offer_for sdp id) = two (codes "offer") sdp id
legacy_text (LegacyMessage.answer sdp id) = two (codes "answer") sdp id
legacy_text (LegacyMessage.ice candidate id) = two (codes "ice") candidate id
legacy_text (LegacyMessage.keyframe id) = one (codes "keyframe") id
legacy_text (LegacyMessage.close id) = one (codes "close") id
legacy_text (LegacyMessage.close_for id reason) = two (codes "close") id reason

-- Every text but the last of two is without a comma.
abbrev pub Splits : LegacyMessage → Type 0
Splits (LegacyMessage.offer sdp) = Free b',' sdp
Splits (LegacyMessage.offer_for sdp id) = Free b',' sdp
Splits (LegacyMessage.answer sdp id) = Free b',' sdp
Splits (LegacyMessage.ice candidate id) = Free b',' candidate
Splits (LegacyMessage.keyframe id) = Free b',' id
Splits (LegacyMessage.close id) = Free b',' id
Splits (LegacyMessage.close_for id reason) = Free b',' id

abbrev pub meaning : LegacyMessage → SignalingMessage
meaning (LegacyMessage.offer sdp) = SignalingMessage.offer sdp none
meaning (LegacyMessage.offer_for sdp id) = SignalingMessage.offer sdp (some id)
meaning (LegacyMessage.answer sdp id) = SignalingMessage.answer sdp id
meaning (LegacyMessage.ice candidate id) =
    SignalingMessage.ice_candidate candidate (some (codes "0")) (some 0) id
meaning (LegacyMessage.keyframe id) = SignalingMessage.keyframe_request id
meaning (LegacyMessage.close id) = SignalingMessage.close id none
meaning (LegacyMessage.close_for id reason) = SignalingMessage.close id (some reason)

webrtc-Free : Free b',' (codes "webrtc")
webrtc-Free = (refl, (refl, (refl, (refl, (refl, (refl, tt))))))

one_lem :
    (cmd a : Text)
    → Free b',' cmd
    → Free b',' a
    → parse_legacy (one cmd a) ≡ legacy_command cmd (a ∷ [])
unfolding parse_legacy
one_lem cmd a fc fa = ap on_legacy (
    splitn-append 2 b',' (codes "webrtc") (cmd ++ (b',' ∷ a)) webrtc-Free
    ∙ ap (◌∷◌ (codes "webrtc"))
        (splitn-append 1 b',' cmd a fc ∙ ap (◌∷◌ cmd) (splitn-Free 0 b',' a fa)))

two_lem :
    (cmd a b : Text)
    → Free b',' cmd
    → Free b',' a
    → parse_legacy (two cmd a b) ≡ legacy_command cmd (a ∷ b ∷ [])
unfolding parse_legacy splitn
two_lem cmd a b fc fa = ap on_legacy (
    splitn-append 2 b',' (codes "webrtc") (cmd ++ (b',' ∷ (a ++ (b',' ∷ b)))) webrtc-Free
    ∙ ap (◌∷◌ (codes "webrtc")) (
        splitn-append 1 b',' cmd (a ++ (b',' ∷ b)) fc ∙ ap (◌∷◌ cmd) (splitn-append 0 b',' a b fa)))

offer-Free : Free b',' (codes "offer")
offer-Free = (refl, (refl, (refl, (refl, (refl, tt)))))

close-Free : Free b',' (codes "close")
close-Free = (refl, (refl, (refl, (refl, (refl, tt)))))

parse_legacy-text : (m : LegacyMessage) → Splits m → parse_legacy (legacy_text m) ≡ ok (meaning m)
unfolding legacy_command same legacy_offer legacy_answer legacy_ice legacy_keyframe legacy_close
parse_legacy-text (LegacyMessage.offer sdp) f = one_lem (codes "offer") sdp offer-Free f
parse_legacy-text (LegacyMessage.offer_for sdp id) f = two_lem (codes "offer") sdp id offer-Free f
parse_legacy-text (LegacyMessage.answer sdp id) f =
    two_lem (codes "answer") sdp id (refl, (refl, (refl, (refl, (refl, (refl, tt)))))) f
parse_legacy-text (LegacyMessage.ice candidate id) f =
    two_lem (codes "ice") candidate id (refl, (refl, (refl, tt))) f
parse_legacy-text (LegacyMessage.keyframe id) f =
    one_lem (codes "keyframe") id (refl, (refl, (refl, (refl, (refl, (refl, (refl, (refl, tt))))))))
      f
parse_legacy-text (LegacyMessage.close id) f = one_lem (codes "close") id close-Free f
parse_legacy-text (LegacyMessage.close_for id reason) f =
    two_lem (codes "close") id reason close-Free f

-- The message without the white space at the end of its last text.
abbrev pub trimmed : LegacyMessage → LegacyMessage
trimmed (LegacyMessage.offer sdp) = LegacyMessage.offer (trim_end sdp)
trimmed (LegacyMessage.offer_for sdp id) = LegacyMessage.offer_for sdp (trim_end id)
trimmed (LegacyMessage.answer sdp id) = LegacyMessage.answer sdp (trim_end id)
trimmed (LegacyMessage.ice candidate id) = LegacyMessage.ice candidate (trim_end id)
trimmed (LegacyMessage.keyframe id) = LegacyMessage.keyframe (trim_end id)
trimmed (LegacyMessage.close id) = LegacyMessage.close (trim_end id)
trimmed (LegacyMessage.close_for id reason) = LegacyMessage.close_for id (trim_end reason)

trim-one : (cmd a : Text) → trim (one cmd a) ≡ one cmd (trim_end a)
unfolding trim trim_end
trim-one cmd a = trim_end-append (codes "webrtc," ++ cmd) a b',' refl

trim-two : (cmd a b : Text) → trim (two cmd a b) ≡ two cmd a (trim_end b)
unfolding is_whitespace
trim-two cmd a b = trim-one cmd (a ++ (b',' ∷ b)) ∙ ap (one cmd) (trim_end-append a b b',' refl)

trim-legacy_text : (m : LegacyMessage) → trim (legacy_text m) ≡ legacy_text (trimmed m)
trim-legacy_text (LegacyMessage.offer sdp) = trim-one (codes "offer") sdp
trim-legacy_text (LegacyMessage.offer_for sdp id) = trim-two (codes "offer") sdp id
trim-legacy_text (LegacyMessage.answer sdp id) = trim-two (codes "answer") sdp id
trim-legacy_text (LegacyMessage.ice candidate id) = trim-two (codes "ice") candidate id
trim-legacy_text (LegacyMessage.keyframe id) = trim-one (codes "keyframe") id
trim-legacy_text (LegacyMessage.close id) = trim-one (codes "close") id
trim-legacy_text (LegacyMessage.close_for id reason) = trim-two (codes "close") id reason

trimmed-Splits : (m : LegacyMessage) → Splits m → Splits (trimmed m)
trimmed-Splits (LegacyMessage.offer sdp) f = Free-trim_end b',' sdp f
trimmed-Splits (LegacyMessage.keyframe id) f = Free-trim_end b',' id f
trimmed-Splits (LegacyMessage.close id) f = Free-trim_end b',' id f
trimmed-Splits (LegacyMessage.offer_for sdp id) f = f
trimmed-Splits (LegacyMessage.answer sdp id) f = f
trimmed-Splits (LegacyMessage.ice candidate id) f = f
trimmed-Splits (LegacyMessage.close_for id reason) f = f

parse-legacy_text :
    (from_json : Text → Parsed) (m : LegacyMessage)
    → (raw : Text) → trim raw ≡ legacy_text m
    → parse from_json raw ≡ parse_legacy (legacy_text m)
unfolding parse starts_with strip_prefix
parse-legacy_text from_json (LegacyMessage.offer sdp) raw h = rw h refl
parse-legacy_text from_json _ raw h = rw h refl

-- A message in the legacy form, with white space around it or not, is read back as what it means,
-- less the white space at the end of its last text: an offer with or without a session, an answer,
-- a candidate, a keyframe request, and a close with or without a reason. The last of two texts may
-- hold anything; a text before it, and a text that stands alone, holds no comma.
pub parse-legacy :
    (from_json : Text → Parsed) (m : LegacyMessage) (raw : Text)
    → Splits m
    → trim raw ≡ trim (legacy_text m)
    → parse from_json raw ≡ ok (meaning (trimmed m))
parse-legacy from_json m raw f h =
    parse-legacy_text from_json (trimmed m) raw (h ∙ trim-legacy_text m)
    ∙ parse_legacy-text (trimmed m) (trimmed-Splits m f)
