-- ===== src/Shared/Subscribers.antt =====
-- src/web/shared.rs: the senders that `subscribe_rtp_mpsc` and its like register, and `retain` over
-- them. A channel keeps what its receiver has still to take; a send fails when the receiver is
-- gone. A receiver is known by the number of those that came before it.
use mathlib.Core.Option
use selkies_core.Prelude.{
  ℕ, ◌+◌, ◌<◌, ◌≡◌, refl, ◌∙◌, Bool, true, false, ◌&&◌, List, [], ◌∷◌, ◌++◌, map, Option, none,
  some, All, All-append, ◌==◌, if◌then◌else◌, arith,
}

pub record Channel {ℓ} (A : Type ℓ) : Type ℓ where
  pub id : ℕ
  pub is_open : Bool
  pub queue : List A

pub record Hub {ℓ} (A : Type ℓ) : Type ℓ where
  pub next : ℕ
  pub channels : List (Channel A)

-- What a task does with the senders, or with its own receiver.
pub data Op {ℓ} (A : Type ℓ) : Type ℓ where
  subscribe : Op A
  send : A → Op A
  recv : ℕ → Op A
  close : ℕ → Op A

abbrev tail {ℓ} : {A : Type ℓ} → List A → List A
tail [] = []
tail (x ∷ xs) = xs

module _ {ℓ} {A : Type ℓ} where
  abbrev pub none_yet : Hub A
  none_yet = record { next = 0; channels = [] }

  -- `mpsc::unbounded_channel` and `push`.
  unfoldable pub add_subscriber : Hub A → Hub A
  add_subscriber h = record {
    next = h.next + 1;
    channels = h.channels ++ record { id = h.next; is_open = true; queue = [] } ∷ [];
  }

  -- `subs.retain(|tx| tx.send(packet.clone()).is_ok())`.
  unfoldable pub retain_sent : A → List (Channel A) → List (Channel A)
  retain_sent m [] = []
  retain_sent m (c ∷ cs) =
      let rest = retain_sent m cs in
      if c.is_open then record c { queue = c.queue ++ m ∷ [] } ∷ rest else rest

  unfoldable pub send_all : A → Hub A → Hub A
  unfolding retain_sent
  send_all m h = record h { channels = retain_sent m h.channels }

  abbrev taken : ℕ → Channel A → Channel A
  taken k c = if c.id == k then record c { queue = tail c.queue } else c

  abbrev closed : ℕ → Channel A → Channel A
  closed k c = if c.id == k then record c { is_open = false } else c

  unfoldable pub apply : Op A → Hub A → Hub A
  unfolding add_subscriber send_all
  apply Op.subscribe h = add_subscriber h
  apply (Op.send m) h = send_all m h
  apply (Op.recv k) h = record h { channels = map (taken k) h.channels }
  apply (Op.close k) h = record h { channels = map (closed k) h.channels }

  unfoldable pub run : List (Op A) → Hub A → Hub A
  unfolding apply
  run [] h = h
  run (o ∷ os) h = run os (apply o h)

  -- What receiver `k` has still to take, as long as it is open.
  unfoldable pub waiting : ℕ → List (Channel A) → Option (List A)
  waiting k [] = none
  waiting k (c ∷ cs) = if c.id == k && c.is_open then some c.queue else waiting k cs

  -- The same for one receiver by itself: it is there from its turn among the subscriptions on, every
  -- message sent from then on is behind the earlier ones, and it takes them from the front.
  unfoldable pub expected : ℕ → List (Op A) → ℕ → Option (List A) → Option (List A)
  expected k [] n o = o
  expected k (Op.subscribe ∷ os) n o = expected k os (n + 1) (if n == k then some [] else o)
  expected k (Op.send m ∷ os) n o = expected k os n (Option.map (λ q. q ++ m ∷ []) o)
  expected k (Op.recv j ∷ os) n o = expected k os n (if j == k then Option.map tail o else o)
  expected k (Op.close j ∷ os) n o = expected k os n (if j == k then none else o)

  -- The numbers given out so far are below the next.
  abbrev Fresh : Hub A → Type 0
  Fresh h = All (λ (c : Channel A). c.id < h.next) h.channels

  waiting-subscribe :
      (k n : ℕ) (cs : List (Channel A))
      → All (λ (c : Channel A). c.id < n) cs
      → waiting k (cs ++ record { id = n; is_open = true; queue = [] } ∷ [])
        ≡ (if n == k then some [] else waiting k cs)
  unfolding waiting
  waiting-subscribe k n [] f = ground arith
  waiting-subscribe k n (c ∷ cs) f = ground (arith, waiting-subscribe k n cs f.1)

  waiting-send :
      (k : ℕ) (m : A) (cs : List (Channel A))
      → waiting k (retain_sent m cs) ≡ Option.map (λ q. q ++ m ∷ []) (waiting k cs)
  unfolding waiting retain_sent
  waiting-send k m [] = refl
  waiting-send k m (c ∷ cs) = ground (arith, waiting-send k m cs)

  waiting-recv :
      (k j : ℕ) (cs : List (Channel A))
      → waiting k (map (taken j) cs)
        ≡ (if j == k then Option.map tail (waiting k cs) else waiting k cs)
  unfolding waiting
  waiting-recv k j [] = ground arith
  waiting-recv k j (c ∷ cs) = ground (arith, waiting-recv k j cs)

  waiting-close :
      (k j : ℕ) (cs : List (Channel A))
      → waiting k (map (closed j) cs) ≡ (if j == k then none else waiting k cs)
  unfolding waiting
  waiting-close k j [] = ground arith
  waiting-close k j (c ∷ cs) = ground (arith, waiting-close k j cs)

  All-below :
      (n : ℕ) (cs : List (Channel A))
      → All (λ (c : Channel A). c.id < n) cs
      → All (λ (c : Channel A). c.id < n + 1) cs
  All-below n [] f = tt
  All-below n (c ∷ cs) f = (let g = f.0 in omega arith, All-below n cs f.1)

  All-sent :
      (n : ℕ) (m : A) (cs : List (Channel A))
      → All (λ (c : Channel A). c.id < n) cs
      → All (λ (c : Channel A). c.id < n) (retain_sent m cs)
  unfolding retain_sent
  All-sent n m [] f = tt
  All-sent n m (c ∷ cs) f = ground (arith, All-sent n m cs f.1)

  All-map :
      (n : ℕ) (g : Channel A → Channel A) (cs : List (Channel A))
      → ((c : Channel A) → (g c).id ≡ c.id)
      → All (λ (c : Channel A). c.id < n) cs
      → All (λ (c : Channel A). c.id < n) (map g cs)
  All-map n g [] e f = tt
  All-map n g (c ∷ cs) e f = (let p = f.0 in let q = e c in omega arith, All-map n g cs e f.1)

  apply-Fresh : (o : Op A) (h : Hub A) → Fresh h → Fresh (apply o h)
  unfolding apply
  apply-Fresh Op.subscribe h f =
      All-append (λ (c : Channel A). c.id < h.next + 1) h.channels _ (All-below h.next h.channels f)
        (omega arith, tt)
  apply-Fresh (Op.send m) h f = All-sent h.next m h.channels f
  apply-Fresh (Op.recv k) h f = All-map h.next (taken k) h.channels (λ c. ground arith) f
  apply-Fresh (Op.close k) h f = All-map h.next (closed k) h.channels (λ c. ground arith) f

  run_refines :
      (k : ℕ) (os : List (Op A)) (h : Hub A)
      → Fresh h
      → waiting k (run os h).channels ≡ expected k os h.next (waiting k h.channels)
  unfolding run expected
  run_refines k [] h f = refl
  run_refines k (Op.subscribe ∷ os) h f =
      run_refines k os (apply Op.subscribe h) (apply-Fresh Op.subscribe h f)
      ∙ rw (apply, add_subscriber, waiting-subscribe k h.next h.channels f) refl
  run_refines k (Op.send m ∷ os) h f =
      run_refines k os (apply (Op.send m) h) (apply-Fresh (Op.send m) h f)
      ∙ rw (apply, send_all, waiting-send k m h.channels) refl
  run_refines k (Op.recv j ∷ os) h f =
      run_refines k os (apply (Op.recv j) h) (apply-Fresh (Op.recv j) h f)
      ∙ rw (apply, waiting-recv k j h.channels) refl
  run_refines k (Op.close j ∷ os) h f =
      run_refines k os (apply (Op.close j) h) (apply-Fresh (Op.close j) h f)
      ∙ rw (apply, waiting-close k j h.channels) refl

  -- In every run of subscriptions, broadcasts, receptions and closings, in any order, each open
  -- receiver has still to take exactly the messages that were sent since it subscribed, in the order
  -- they were sent, less those that it has taken, which were the first of them; closed ones and
  -- other receivers make no difference.
  pub run-waiting :
      (k : ℕ) (os : List (Op A)) → waiting k (run os none_yet).channels ≡ expected k os 0 none
  unfolding waiting
  run-waiting k os = run_refines k os none_yet tt
