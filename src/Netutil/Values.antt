-- ===== src/Netutil/Values.antt =====
-- An address as a number: incIP adds one to it.
use mathlib.Core.List.{reverse-reverse}
use native.Mathlib.Nat.{pow-suc}
use wireguardd.Base.{
  ◌==◌, if-cases, ==→eq, length, All, length-reverse, All-reverse, reverse, Bytes, ℕ, suc, ◌+◌, ◌*◌,
  ◌^◌, ◌<◌, ◌≡◌, refl, sym, ap, ◌∙◌, [], ◌∷◌, arith,
}
use wireguardd.Netutil.{inc_from_last, inc_ip}

abbrev pub IsIp : Bytes → Type 0
IsIp ip = All (λ b. b < 256) ip

-- The number of the bytes, the last one first.
abbrev from_last : Bytes → ℕ
from_last [] = 0
from_last (b ∷ bs) = b + 256 * from_last bs

unfoldable pub value : Bytes → ℕ
value ip = from_last (reverse ip)

from_last-inc_from_last :
    (bs : Bytes)
    → from_last bs + 1 < 256 ^ length bs
    → from_last (inc_from_last bs) ≡ from_last bs + 1
from_last-inc_from_last [] h = absurd (omega arith)
from_last-inc_from_last (b ∷ bs) h =
    if-cases (λ r. from_last r ≡ from_last (b ∷ bs) + 1) (b == 255) _ _
      (λ e. omega (
        arith,
        ==→eq b 255 e,
        from_last-inc_from_last bs (room (==→eq b 255 e)),
        pow-suc 256 (length bs),
      ))
      (λ e. omega arith)
  where
    room : b ≡ 255 → from_last bs + 1 < 256 ^ length bs
    room e = omega (arith, pow-suc 256 (length bs))

inc_from_last-IsIp : (bs : Bytes) → IsIp bs → IsIp (inc_from_last bs)
inc_from_last-IsIp [] h = tt
inc_from_last-IsIp (b ∷ bs) (h, hs) =
    if-cases IsIp (b == 255) _ _ (λ e. (omega arith, inc_from_last-IsIp bs hs))
      (λ e. (ground arith, hs))

length-inc_from_last : (bs : Bytes) → length (inc_from_last bs) ≡ length bs
length-inc_from_last [] = refl
length-inc_from_last (b ∷ bs) =
    if-cases (λ r. length r ≡ suc (length bs)) (b == 255) _ _
      (λ e. omega (arith, length-inc_from_last bs)) (λ e. refl)

-- The next address is the next number, short of the last one.
pub value-inc_ip : (ip : Bytes) → value ip + 1 < 256 ^ length ip → value (inc_ip ip) ≡ value ip + 1
unfolding value inc_ip
value-inc_ip ip h =
    ap from_last (reverse-reverse (inc_from_last (reverse ip)))
    ∙ from_last-inc_from_last (reverse ip) (rw (length-reverse ip) h)

pub inc_ip-IsIp : (ip : Bytes) → IsIp ip → IsIp (inc_ip ip)
unfolding inc_ip
inc_ip-IsIp ip h =
    All-reverse (λ b. b < 256) (inc_from_last (reverse ip))
      (inc_from_last-IsIp (reverse ip) (All-reverse (λ b. b < 256) ip h))

pub length-inc_ip : (ip : Bytes) → length (inc_ip ip) ≡ length ip
unfolding inc_ip
length-inc_ip ip =
    length-reverse (inc_from_last (reverse ip))
    ∙ length-inc_from_last (reverse ip)
    ∙ length-reverse ip

from_last-injective :
    (xs ys : Bytes)
    → IsIp xs
    → IsIp ys
    → length xs ≡ length ys
    → from_last xs ≡ from_last ys
    → xs ≡ ys
from_last-injective [] [] h k l e = refl
from_last-injective [] (y ∷ ys) h k l e = absurd (omega arith)
from_last-injective (x ∷ xs) [] h k l e = absurd (omega arith)
from_last-injective (x ∷ xs) (y ∷ ys) (h, hs) (k, ks) l e =
    let first : x ≡ y = omega arith in
    let rest : from_last xs ≡ from_last ys = omega arith in
    ap (λ z. z ∷ xs) first ∙ ap (λ zs. y ∷ zs) (from_last-injective xs ys hs ks (omega arith) rest)

pub value-injective :
    (xs ys : Bytes) → IsIp xs → IsIp ys → length xs ≡ length ys → value xs ≡ value ys → xs ≡ ys
unfolding value
value-injective xs ys h k l e =
    sym (reverse-reverse xs)
    ∙ ap reverse (
        from_last-injective (reverse xs) (reverse ys) (All-reverse (λ b. b < 256) xs h)
          (All-reverse (λ b. b < 256) ys k) (length-reverse xs ∙ l ∙ sym (length-reverse ys)) e)
    ∙ reverse-reverse ys

from_last-bound : (bs : Bytes) → IsIp bs → from_last bs < 256 ^ length bs
from_last-bound [] h = omega arith
from_last-bound (b ∷ bs) (h, hs) = omega (arith, from_last-bound bs hs, pow-suc 256 (length bs))

pub value-bound : (ip : Bytes) → IsIp ip → value ip < 256 ^ length ip
unfolding value
value-bound ip h = omega (
  arith,
  length-reverse ip,
  bound (reverse ip) (All-reverse (λ b. b < 256) ip h) (length ip) (length-reverse ip),
)
  where
    bound : (bs : Bytes) → IsIp bs → (n : ℕ) → length bs ≡ n → from_last bs < 256 ^ n
    bound bs k n e = rw (sym e) (from_last-bound bs k)
