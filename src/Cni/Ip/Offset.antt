-- ===== src/Cni/Ip/Offset.antt =====
-- The offset that `getVIPRangeStart` adds to the base address of a subnet.
use native.Mathlib.Nat.{pow-suc}
use swarm_cracker.Prelude.{
  ℕ, zero, suc, ◌+◌, ◌*◌, ◌%◌, ◌^◌, ◌≤◌, ◌<◌, ◌≡◌, ◌∙◌, refl, ap, [], ◌∷◌, arith, length,
}
use swarm_cracker.Cni.Net.{Ip}
use swarm_cracker.Cni.Ip.{add_offset, decrement_ip, vip_candidate}
use swarm_cracker.Cni.Ip.Value.{IsBytes, value}
use swarm_cracker.Cni.Ip.Neighbours.{decrement_ip-IsBytes, decrement_ip-value, length-decrement_ip}

-- What the bytes have left is nothing: the byte before them stays.
add_offset-rest :
    (b : ℕ) (bs : Ip) (offset : ℕ)
    → (add_offset bs offset).1 ≡ 0
    → add_offset (b ∷ bs) offset ≡ (b ∷ (add_offset bs offset).0, 0)
unfolding add_offset
add_offset-rest b bs offset e = rw e

value-cons_mod : (b c : ℕ) (cs : Ip) → value (b ∷ c ∷ cs) % 256 ≡ value (c ∷ cs) % 256
unfolding value
value-cons_mod b c cs = omega (arith, ap (λ (t : ℕ). b * t) (pow-suc 256 (length cs)))

value-cons : (b : ℕ) (xs : Ip) → value (b ∷ xs) ≡ b * 256 ^ length xs + value xs
unfolding value
value-cons b xs = refl

-- What holds of an addition with no overflow.
pub record Adds (ip r : Ip) (offset : ℕ) : Type 0 where
  pub sum : value r ≡ value ip + offset
  pub same_length : length r ≡ length ip
  pub bytes : IsBytes r

-- An offset of one digit that the last byte has room for is added with no overflow.
pub add_offset-Adds :
    (b : ℕ) (bs : Ip) (offset : ℕ)
    → IsBytes (b ∷ bs)
    → value (b ∷ bs) % 256 + offset < 256
    → ((add_offset (b ∷ bs) offset).1 ≡ 0) × Adds (b ∷ bs) (add_offset (b ∷ bs) offset).0 offset
add_offset-Adds b [] offset h room = unfold add_offset value in ground (arith, h.0)
add_offset-Adds b (c ∷ cs) offset h room =
    let tail = add_offset-Adds c cs offset h.1 (omega (arith, value-cons_mod b c cs)) in
    rw (add_offset-rest b (c ∷ cs) offset tail.0) (
      refl,
      record {
        sum =
            rw (value-cons, value-cons b (c ∷ cs), tail.1.same_length) (omega (arith, tail.1.sum));
        same_length = ap suc tail.1.same_length;
        bytes = (h.0, tail.1.bytes);
      },
    )

-- Counting down from an address of value at least `k`.
pub vip_candidate-value :
    (k : ℕ) (ip : Ip)
    → IsBytes ip
    → k ≤ value ip
    → (value (vip_candidate k ip) + k ≡ value ip)
      × IsBytes (vip_candidate k ip)
      × (length (vip_candidate k ip) ≡ length ip)
vip_candidate-value zero ip h room = (omega arith, h, refl)
vip_candidate-value (suc k) ip h room =
    let step = decrement_ip-value ip h (omega arith) in
    let rest =
      vip_candidate-value k (decrement_ip ip) (decrement_ip-IsBytes ip h) (omega (arith, step)) in
    (omega (arith, step, rest.0), rest.1, rest.2 ∙ length-decrement_ip ip)
