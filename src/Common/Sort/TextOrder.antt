-- ===== src/Common/Sort/TextOrder.antt =====
-- The order of strings that Go's `<` is: a strict total order.
use Prim.Native.String.{String, [], ◌∷◌}
use Prim.Native.String.compare
use mathlib.Core.Path.{◌≡◌}
use mathlib.Core.Bool.{true, false}
use native.Mathlib.Omega.{arith}
use ruleraven.Common.Text.{ltb_text}

pub ltb_text-asymm : (s t : String) → ltb_text s t ≡ true → ltb_text t s ≡ false
ltb_text-asymm [] [] h = ground (arith, compare.nil-nil)
ltb_text-asymm [] (d ∷ t) h = rw (compare.cons-nil d t)
ltb_text-asymm (c ∷ s) [] h = rw (compare.nil-cons c s) (cc (compare.cons-nil c s))
ltb_text-asymm (c ∷ s) (d ∷ t) h =
    rw (compare.cons-cons d c t s)
      (let k = rw (compare.cons-cons c d s t) at h in ground (arith, k, ltb_text-asymm s t))

pub ltb_text-false_trans :
    (r s t : String) → ltb_text s r ≡ false → ltb_text t s ≡ false → ltb_text t r ≡ false
ltb_text-false_trans [] s [] h k = ground (arith, compare.nil-nil)
ltb_text-false_trans [] s (e ∷ t) h k = rw (compare.cons-nil e t)
ltb_text-false_trans (c ∷ r) [] t h k = cc (compare.nil-cons c r)
ltb_text-false_trans (c ∷ r) (d ∷ s) [] h k = cc (compare.nil-cons d s)
ltb_text-false_trans (c ∷ r) (d ∷ s) (e ∷ t) h k = rw (compare.cons-cons e c t r) (
    let h' = rw (compare.cons-cons d c s r) at h in
    let k' = rw (compare.cons-cons e d t s) at k in
    ground (arith, h', k', ltb_text-false_trans r s t))
