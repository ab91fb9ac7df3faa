-- ===== src/Lifecycle/Waiting.antt =====
-- pkg/lifecycle/vmm.go: the loops that wait for the API server to appear and to disappear.
use swarm_cracker.Prelude.{
  ℕ, zero, suc, ◌+◌, ◌*◌, ◌≤◌, String, Bool, true, false, ltb, if◌then◌else◌, ◌≡◌, ◌⊎◌, inl, inr,
  refl, ap, arith, Bool-cases,
}
use swarm_cracker.Lifecycle.{System, FileStatus, present, missing, unreadable}

pub data Waited : Type 0 where
  seen expired out_of_rounds : Waited

pub Waited-cases : (x : Waited) → (x ≡ seen) ⊎ ((x ≡ expired) ⊎ (x ≡ out_of_rounds))
Waited-cases seen = inl refl
Waited-cases expired = inr (inl refl)
Waited-cases out_of_rounds = inr (inr refl)

module _ {W : Type 0} (s : System W) where
  -- `for time.Now().Before(deadline) { ... }` with a number of rounds.
  pub poll : ℕ → (W → Bool × W) → ℕ → ℕ → W → Waited × W
  poll zero probe interval deadline w = (out_of_rounds, w)
  poll (suc rounds) probe interval deadline w =
      let (found, w') = probe w in
      let later = poll rounds probe interval deadline (s.sleep interval w') in
      if ltb (s.now w) deadline then if found then (seen, w') else later else (expired, w)

  abbrev pub connects : String → W → Bool × W
  connects socket w = elim (s.stat socket w) [
    | present ↦ s.get_root socket w
    | missing ↦ (false, w)
    | unreadable ↦ (false, w)
  ]

  abbrev pub is_gone : String → W → Bool × W
  is_gone socket w = elim (s.stat socket w) [
    | present ↦ (false, w)
    | missing ↦ (true, w)
    | unreadable ↦ (false, w)
  ]

  -- The timeout is 10 seconds in the one call.
  unfoldable pub wait_for_api_server : String → W → Waited × W
  unfolding poll
  wait_for_api_server socket w = poll 101 (connects socket) 100 (s.now w + 10000) w

  -- The timeout is 30 seconds in the one call.
  unfoldable pub wait_for_shutdown : String → W → Waited × W
  unfolding poll
  wait_for_shutdown socket w = poll 61 (is_gone socket) 500 (s.now w + 30000) w

-- What is relied on of the clock: a sleep lasts as long as asked, and a request does not turn time
-- back.
pub record KeepsTime {W : Type 0} (s : System W) : Type 0 where
  pub sleeps : (d : ℕ) (w : W) → s.now w + d ≤ s.now (s.sleep d w)
  pub waits : (socket : String) (w : W) → s.now w ≤ s.now (s.get_root socket w).1

-- The loop has ended by its own tests: what it waits for holds, or it is past the deadline.
abbrev pub HasDecided : {W : Type 0} → System W → (W → Type 0) → ℕ → Waited × W → Type 0
HasDecided s Holds deadline (waited, w) =
    ((waited ≡ seen) × Holds w) ⊎ ((waited ≡ expired) × (deadline ≤ s.now w))

-- The socket was there, and the API server has answered a request through it.
abbrev pub HasAnswered : {W : Type 0} → System W → String → W → Type 0
HasAnswered {W} s socket w =
    (w' : W) × (s.stat socket w' ≡ present) × (s.get_root socket w' ≡ (true, w))

-- The socket is not there.
abbrev pub IsGone : {W : Type 0} → System W → String → W → Type 0
IsGone s socket w = s.stat socket w ≡ missing

FileStatus-cases : (x : FileStatus) → (x ≡ present) ⊎ ((x ≡ missing) ⊎ (x ≡ unreadable))
FileStatus-cases present = inl refl
FileStatus-cases missing = inr (inl refl)
FileStatus-cases unreadable = inr (inr refl)

module _ {W : Type 0} (s : System W) where
  expired_test : (w : W) (deadline : ℕ) → deadline ≤ s.now w → ltb (s.now w) deadline ≡ false
  expired_test w deadline h = ground arith

  late_lem : (w : W) (deadline : ℕ) → ltb (s.now w) deadline ≡ false → deadline ≤ s.now w
  late_lem w deadline late = ground arith

  connects_onward :
      KeepsTime s → (socket : String) (w : W) → s.now w ≤ s.now (connects s socket w).1
  connects_onward time socket w = ground (arith, time.waits socket w)

  is_gone_onward : (socket : String) (w : W) → s.now w ≤ s.now (is_gone s socket w).1
  is_gone_onward socket w = ground arith

  connects-HasAnswered :
      (socket : String) (w : W)
      → (connects s socket w).0 ≡ true
      → HasAnswered s socket (connects s socket w).1
  connects-HasAnswered socket w answered = elim (FileStatus-cases (s.stat socket w)) [
    | inl there ↦
        rw (connects, there)
          (w, there, ap (λ b. (b, (s.get_root socket w).1)) (rw (connects, there) at answered))
    | inr (inl gone) ↦ cc (rw (connects, gone) at answered)
    | inr (inr bad) ↦ cc (rw (connects, bad) at answered)
  ]

  is_gone-IsGone :
      (socket : String) (w : W)
      → (is_gone s socket w).0 ≡ true
      → IsGone s socket (is_gone s socket w).1
  is_gone-IsGone socket w gone = elim (FileStatus-cases (s.stat socket w)) [
    | inl there ↦ cc (rw (is_gone, there) at gone)
    | inr (inl away) ↦ rw (is_gone, away) away
    | inr (inr bad) ↦ cc (rw (is_gone, bad) at gone)
  ]

module _ {W : Type 0} (s : System W) (time : KeepsTime s) (probe : W → Bool × W) (interval : ℕ)
    (onward : (w : W) → s.now w ≤ s.now (probe w).1) (Holds : W → Type 0)
    (holds : (w : W) → (probe w).0 ≡ true → Holds (probe w).1) where
  next_enough :
      (rounds deadline : ℕ) (w : W)
      → deadline ≤ s.now w + suc rounds * interval
      → deadline ≤ s.now (s.sleep interval (probe w).1) + rounds * interval
  next_enough rounds deadline w enough = grind (arith, time.sleeps interval (probe w).1, onward w)

  poll_decides :
      (rounds deadline : ℕ) (w : W)
      → deadline ≤ s.now w + rounds * interval
      → HasDecided s Holds deadline (poll s (suc rounds) probe interval deadline w)
  unfolding poll
  poll_decides zero deadline w enough =
      rw (expired_test s w deadline (omega arith)) (inr (refl, omega arith))
  poll_decides (suc rounds) deadline w enough = elim (Bool-cases (ltb (s.now w) deadline)) [
    | inr late ↦ rw late (inr (refl, late_lem s w deadline late))
    | inl early ↦ elim (Bool-cases (probe w).0) [
      | inl found ↦ rw (early, found) (inl (refl, holds w found))
      | inr unseen ↦
          rw (early, unseen)
            (poll_decides rounds deadline (s.sleep interval (probe w).1)
              (next_enough rounds deadline w enough))
    ]
  ]

module _ {W : Type 0} (s : System W) where
  poll_seen :
      (rounds : ℕ) (probe : W → Bool × W) (interval limit : ℕ) (w : W)
      → (probe w).0 ≡ true
      → poll s (suc rounds) probe interval (s.now w + suc limit) w ≡ (seen, (probe w).1)
  unfolding poll
  poll_seen rounds probe interval limit w found =
      let early : ltb (s.now w) (s.now w + suc limit) ≡ true = ground arith in
      rw (early, found) refl

  finds_gone :
      (socket : String) (w : W)
      → IsGone s socket w
      → wait_for_shutdown s socket w ≡ (seen, (is_gone s socket w).1)
  unfolding wait_for_shutdown
  finds_gone socket w gone = poll_seen 60 (is_gone s socket) 500 29999 w (rw (is_gone, gone) refl)

  finds_server :
      (socket : String) (w : W)
      → s.stat socket w ≡ present
      → (s.get_root socket w).0 ≡ true
      → wait_for_api_server s socket w ≡ (seen, (connects s socket w).1)
  unfolding wait_for_api_server
  finds_server socket w there answered =
      poll_seen 100 (connects s socket) 100 9999 w (rw (connects, there) answered)

-- If the clock advances by what is slept and requests do not turn it back, both waiting loops end by
-- their own tests: the API server has answered through its socket, or the socket is missing, or their
-- 10 or 30 seconds are over. The 101 and 61 rounds of the model are never used up. A server that answers,
-- and a socket that is missing, at the first look is found then.
pub waits_decide :
    {W : Type 0} (s : System W) (socket : String) (w : W)
    → KeepsTime s
    → HasDecided s (HasAnswered s socket) (s.now w + 10000) (wait_for_api_server s socket w)
      × HasDecided s (IsGone s socket) (s.now w + 30000) (wait_for_shutdown s socket w)
      × (s.stat socket w ≡ present
          → (s.get_root socket w).0 ≡ true
          → (wait_for_api_server s socket w).0 ≡ seen)
      × (IsGone s socket w → (wait_for_shutdown s socket w).0 ≡ seen)
unfolding wait_for_api_server wait_for_shutdown
waits_decide s socket w time = (
  poll_decides s time (connects s socket) 100 (connects_onward s time socket) (HasAnswered s socket)
      (connects-HasAnswered s socket) 100 (s.now w + 10000) w (omega arith),
  poll_decides s time (is_gone s socket) 500 (is_gone_onward s socket) (IsGone s socket)
      (is_gone-IsGone s socket) 60 (s.now w + 30000) w (omega arith),
  λ there answered. ap (λ r. r.0) (finds_server s socket w there answered),
  λ gone. ap (λ r. r.0) (finds_gone s socket w gone),
)
