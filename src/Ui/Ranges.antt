-- ===== src/Ui/Ranges.antt =====
-- src/config/ui.rs: the ranges stay in order, whatever the environment says.
use selkies_core.Prelude.{
  ℕ, ◌≤◌, ◌≡◌, refl, max, Bool, true, false, List, [], ◌∷◌, Option, none, some, OnSome, Text, codes,
  same, is_empty, All, and_then, split_once, parse_u32, trim, ltb, if◌then◌else◌, if-intro,
  option-intro, arith,
}
use selkies_core.Config.{Config}
use selkies_core.Ui.{
  Env, UiRangeU32, UiEnum, clamp, split_locked, parse_range_u32, ranged, env_range_u32, keep,
  only_jpeg, encoders, env_encoder, from_env,
}

pub record InOrder (r : UiRangeU32) : Type 0 where
  pub low : r.min ≤ r.value
  pub high : r.value ≤ r.max

abbrev IsRange : ℕ × ℕ × Bool → Type 0
IsRange (lo, hi, b) = lo ≤ hi

parse_range_u32-IsRange : (raw : Text) → OnSome IsRange (parse_range_u32 raw)
unfolding parse_range_u32
parse_range_u32-IsRange raw = go (split_once 45 raw)
  where
    two :
        (a b : Option ℕ)
        → OnSome IsRange (
            and_then a
              λ lo. and_then b λ hi. if ltb hi lo then some (hi, lo, true) else some (lo, hi, true))
    two none b = tt
    two (some lo) none = tt
    two (some lo) (some hi) =
        if-intro (OnSome IsRange) (ltb hi lo) (λ e. ground arith) (λ e. ground arith)

    one : (a : Option ℕ) → OnSome IsRange (and_then a λ v. some (v, v, false))
    one none = tt
    one (some v) = omega arith

    go :
        (o : Option (Text × Text))
        → OnSome IsRange (elim o [
          | some (min_raw, max_raw) ↦ and_then (parse_u32 (trim min_raw)) λ lo.
              and_then
                (parse_u32 (trim max_raw))
                λ hi. if ltb hi lo then some (hi, lo, true) else some (lo, hi, true)
          | none ↦ and_then (parse_u32 (trim raw)) λ value. some (value, value, false)
        ])
    go none = one (parse_u32 (trim raw))
    go (some (a, b)) = two (parse_u32 (trim a)) (parse_u32 (trim b))

ranged-InOrder :
    (result : UiRangeU32) (hint : Bool) (o : Option (ℕ × ℕ × Bool))
    → InOrder result
    → OnSome IsRange o
    → InOrder (ranged result hint o)
unfolding ranged
ranged-InOrder result hint none i h = i
ranged-InOrder result hint (some (lo, hi, is_range)) i h = record {
  low = ground arith;
  high = ground arith;
}

env_range_u32-InOrder :
    (env : Env) (key : Text) (v lo hi : ℕ) → lo ≤ hi → InOrder (env_range_u32 env key v lo hi)
unfolding env_range_u32
env_range_u32-InOrder env key v lo hi h =
    let result : UiRangeU32 = record {
      value = clamp v lo hi;
      min = lo;
      max = hi;
      locked = false;
    } in
    let start : InOrder result = record { low = ground arith; high = ground arith } in
    option-intro InOrder (env key) (λ e. start)
      λ raw e. ranged-InOrder result _ _ start (parse_range_u32-IsRange (split_locked raw).0)

keep-All : (test : Text → Bool) (xs : List Text) → All (λ x. test x ≡ true) (keep test xs)
keep-All test [] = tt
keep-All test (x ∷ xs) =
    if-intro (All (λ x. test x ≡ true)) (test x) (λ e. (e, keep-All test xs))
      (λ e. keep-All test xs)

-- Every encoder offered is jpeg, and there is at least one.
pub record OnlyJpeg (u : UiEnum) : Type 0 where
  pub offered : is_empty u.options ≡ false
  pub jpeg : All (λ o. same o (codes "jpeg") ≡ true) u.options

only_jpeg-OnlyJpeg : OnlyJpeg only_jpeg
unfolding same
only_jpeg-OnlyJpeg = record { offered = refl; jpeg = (refl, tt) }

encoders-OnlyJpeg : (hint : Bool) (options : List Text) → OnlyJpeg (encoders hint options)
unfolding encoders
encoders-OnlyJpeg hint options =
    let jpegs = keep (λ o. same o (codes "jpeg")) options in
    if-intro OnlyJpeg (is_empty jpegs) (λ e. only_jpeg-OnlyJpeg)
      (λ e. record { offered = e; jpeg = keep-All (λ o. same o (codes "jpeg")) options })

env_encoder-OnlyJpeg : (env : Env) (key : Text) → OnlyJpeg (env_encoder env key)
unfolding env_encoder
env_encoder-OnlyJpeg env key =
    option-intro OnlyJpeg (env key) (λ e. only_jpeg-OnlyJpeg) λ raw e. encoders-OnlyJpeg _ _

-- Whatever the environment holds, and whatever the configuration says: the frame rate and the audio
-- bitrate that the user interface is given lie between the ends of their ranges, and the encoders
-- it is offered are jpeg, at least one.
pub from_env-InOrder :
    (env : Env) (c : Config)
    → InOrder (from_env env c).video.framerate
      × InOrder (from_env env c).audio.bitrate
      × OnlyJpeg (from_env env c).video.encoder
unfolding from_env
from_env-InOrder env c = (
  env_range_u32-InOrder env _ c.encoding.target_fps 1 (max c.encoding.max_fps 1) (omega arith),
  env_range_u32-InOrder env _ c.audio.bitrate 64000 320000 (omega arith),
  env_encoder-OnlyJpeg env _,
)
