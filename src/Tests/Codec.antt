-- ===== src/Tests/Codec.antt =====
-- A concrete encoder and decoder of VM states, for which what is relied on of `encoding/json` holds:
-- a text is its code points, each one higher, up to a 0, and a list stands behind its length.
use Prim.Native.Nat.{compare, Ordering}
use Prim.Native.Char.{Char, char, code, IsLt}
use swarm_cracker.Prelude.{
  ℕ, zero, suc, String, List, [], ◌∷◌, Option, none, some, ◌≡◌, refl, length,
}
use swarm_cracker.Runtime.State.{VmState, Json}
use swarm_cracker.Runtime.State.Persistence.{IsCodec}

-- `IsScalar` on the three comparisons that it makes.
abbrev BothLt : Ordering → Ordering → Type 0
BothLt Ordering.lt o = IsLt o
BothLt Ordering.eq o = ⊥
BothLt Ordering.gt o = ⊥

abbrev Scalar : Ordering → Ordering → Ordering → Type 0
Scalar Ordering.lt o p = Unit
Scalar Ordering.eq o p = BothLt o p
Scalar Ordering.gt o p = BothLt o p

abbrev find_lt : (o : Ordering) → Option (IsLt o)
find_lt Ordering.lt = some tt
find_lt Ordering.eq = none
find_lt Ordering.gt = none

abbrev find_both : (o p : Ordering) → Option (BothLt o p)
find_both Ordering.lt p = find_lt p
find_both Ordering.eq p = none
find_both Ordering.gt p = none

abbrev find_scalar : (o p q : Ordering) → Option (Scalar o p q)
find_scalar Ordering.lt p q = some tt
find_scalar Ordering.eq p q = find_both p q
find_scalar Ordering.gt p q = find_both p q

find_lt-some : (o : Ordering) (h : IsLt o) → find_lt o ≡ some h
find_lt-some Ordering.lt h = refl
find_lt-some Ordering.eq h = absurd h
find_lt-some Ordering.gt h = absurd h

find_both-some : (o p : Ordering) (h : BothLt o p) → find_both o p ≡ some h
find_both-some Ordering.lt p h = find_lt-some p h
find_both-some Ordering.eq p h = absurd h
find_both-some Ordering.gt p h = absurd h

find_scalar-some : (o p q : Ordering) (h : Scalar o p q) → find_scalar o p q ≡ some h
find_scalar-some Ordering.lt p q h = refl
find_scalar-some Ordering.eq p q h = find_both-some p q h
find_scalar-some Ordering.gt p q h = find_both-some p q h

abbrev to_char : ℕ → Option Char
to_char n = elim (find_scalar (compare n 55296) (compare 57343 n) (compare n 1114112)) [
  | none ↦ none
  | some h ↦ some (char n h)
]

to_char-code : (c : Char) → to_char (code c) ≡ some c
to_char-code (char n h) =
    rw (to_char, find_scalar-some (compare n 55296) (compare 57343 n) (compare n 1114112) h) refl

abbrev put_text : String → List ℕ → List ℕ
put_text String.[] rest = 0 ∷ rest
put_text (String.◌∷◌ c s) rest = suc (code c) ∷ put_text s rest

abbrev prepend : Option Char → Option (String × List ℕ) → Option (String × List ℕ)
prepend none found = none
prepend (some c) none = none
prepend (some c) (some (s, rest)) = some (String.◌∷◌ c s, rest)

unfoldable get_text : List ℕ → Option (String × List ℕ)
get_text [] = none
get_text (zero ∷ rest) = some ("", rest)
get_text (suc n ∷ rest) = prepend (to_char n) (get_text rest)

get_text-put_text : (s : String) (rest : List ℕ) → get_text (put_text s rest) ≡ some (s, rest)
unfolding get_text
get_text-put_text String.[] rest = refl
get_text-put_text (String.◌∷◌ c s) rest = rw (to_char-code c, get_text-put_text s rest) refl

abbrev put_texts : List String → List ℕ → List ℕ
put_texts [] rest = rest
put_texts (s ∷ ss) rest = put_text s (put_texts ss rest)

unfoldable get_texts : ℕ → List ℕ → Option (List String × List ℕ)
get_texts zero bytes = some ([], bytes)
get_texts (suc n) bytes = elim (get_text bytes) [
  | none ↦ none
  | some (s, rest) ↦ elim (get_texts n rest) [ none ↦ none | some (ss, left) ↦ some (s ∷ ss, left) ]
]

get_texts-put_texts :
    (ss : List String) (rest : List ℕ) → get_texts (length ss) (put_texts ss rest) ≡ some (ss, rest)
unfolding get_texts
get_texts-put_texts [] rest = refl
get_texts-put_texts (s ∷ ss) rest =
    rw (get_texts, get_text-put_text s (put_texts ss rest), get_texts-put_texts ss rest) refl

module _ {A : Type 0} where
  unfoldable next_text : List ℕ → (String → List ℕ → Option A) → Option A
  next_text bytes k = elim (get_text bytes) [ none ↦ none | some (s, rest) ↦ k s rest ]

  unfoldable next_texts : List ℕ → (List String → List ℕ → Option A) → Option A
  next_texts [] k = none
  next_texts (n ∷ bytes) k = elim (get_texts n bytes) [ none ↦ none | some (ss, rest) ↦ k ss rest ]

  abbrev next : List ℕ → (ℕ → List ℕ → Option A) → Option A
  next [] k = none
  next (n ∷ rest) k = k n rest

  next_text-put_text :
      (s : String) (rest : List ℕ) (k : String → List ℕ → Option A)
      → next_text (put_text s rest) k ≡ k s rest
  unfolding next_text
  next_text-put_text s rest k = rw (next_text, get_text-put_text s rest) refl

  next_texts-put_texts :
      (ss : List String) (rest : List ℕ) (k : List String → List ℕ → Option A)
      → next_texts (length ss ∷ put_texts ss rest) k ≡ k ss rest
  unfolding next_texts
  next_texts-put_texts ss rest k = rw (next_texts, get_texts-put_texts ss rest) refl

abbrev put_state : VmState → List ℕ → List ℕ
put_state s rest = put_text s.id (
    s.pid
    ∷ put_text s.socket_path (
        put_text s.image (
          put_text s.status (
            s.start_time
            ∷ length s.command
            ∷ put_texts s.command (
                s.vcpus
                ∷ s.memory_mb
                ∷ put_text s.kernel_path (
                    put_text s.rootfs_path (
                      put_text s.log_path (
                        put_text s.network_id (
                          length s.ip_addresses
                          ∷ put_texts s.ip_addresses
                              (put_text s.last_error (s.error_time ∷ rest)))))))))))

abbrev get_state : {A : Type 0} → List ℕ → (VmState → List ℕ → Option A) → Option A
get_state bytes k = next_text bytes λ id b1. next b1 λ pid b2. next_text b2 λ socket_path b3.
    next_text b3 λ image b4. next_text b4 λ status b5. next b5 λ start_time b6.
      next_texts b6 λ command b7. next b7 λ vcpus b8. next b8 λ memory_mb b9.
        next_text b9 λ kernel_path b10. next_text b10 λ rootfs_path b11.
          next_text b11 λ log_path b12. next_text b12 λ network_id b13.
            next_texts b13 λ ip_addresses b14. next_text b14 λ last_error b15.
              next b15 λ error_time b16.
                k
                  (record {
                    id = id;
                    pid = pid;
                    socket_path = socket_path;
                    image = image;
                    status = status;
                    start_time = start_time;
                    command = command;
                    vcpus = vcpus;
                    memory_mb = memory_mb;
                    kernel_path = kernel_path;
                    rootfs_path = rootfs_path;
                    log_path = log_path;
                    network_id = network_id;
                    ip_addresses = ip_addresses;
                    last_error = last_error;
                    error_time = error_time;
                  })
                  b16

get_state-put_state :
    {A : Type 0} (s : VmState) (rest : List ℕ) (k : VmState → List ℕ → Option A)
    → get_state (put_state s rest) k ≡ k s rest
get_state-put_state s rest k =
    rw
      (
        get_state,
        next_text-put_text s.id,
        next_text-put_text s.socket_path,
        next_text-put_text s.image,
        next_text-put_text s.status,
        next_texts-put_texts s.command,
        next_text-put_text s.kernel_path,
        next_text-put_text s.rootfs_path,
        next_text-put_text s.log_path,
        next_text-put_text s.network_id,
        next_texts-put_texts s.ip_addresses,
        next_text-put_text s.last_error,
      )
      refl

abbrev put_states : List VmState → List ℕ
put_states [] = []
put_states (s ∷ rest) = put_state s (put_states rest)

unfoldable get_states : ℕ → List ℕ → Option (List VmState)
get_states zero bytes = some []
get_states (suc n) bytes =
    get_state bytes λ s rest. elim (get_states n rest) [ none ↦ none | some ss ↦ some (s ∷ ss) ]

get_states-put_states :
    (states : List VmState) → get_states (length states) (put_states states) ≡ some states
unfolding get_states
get_states-put_states [] = refl
get_states-put_states (s ∷ rest) =
    rw (get_states, get_state-put_state s, get_states-put_states rest) refl

abbrev decode_states : List ℕ → Option (List VmState)
decode_states [] = none
decode_states (n ∷ bytes) = get_states n bytes

pub codec : Json
codec = record { encode = λ states. length states ∷ put_states states; decode = decode_states }

pub codec-IsCodec : IsCodec codec
unfolding codec
codec-IsCodec = record {
  decode-encode = get_states-put_states;
  encode-ne_nil = λ states e. absurd (cc e);
}
