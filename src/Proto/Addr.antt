-- ===== src/Proto/Addr.antt =====
-- The standard library's socket addresses. An IPv4 address is a number below 2^32, an IPv6 address one
-- below 2^128.
use oxutrm.Base.{
  ℕ, ◌+◌, ◌*◌, ◌/◌, ◌%◌, ◌^◌, ◌≡◌, refl, Bool, true, false, List, [], ◌∷◌, ◌==◌, ltb, if◌then◌else◌,
  arith,
}

pub data Ip : Type 0 where
  ipv4 ipv6 : ℕ → Ip

pub data SocketAddr : Type 0 where
  v4 : ℕ → ℕ → SocketAddr
  v6 : ℕ → ℕ → ℕ → ℕ → SocketAddr

unfoldable pub ip : SocketAddr → Ip
ip (v4 address port) = ipv4 address
ip (v6 address port flowinfo scope) = ipv6 address

unfoldable pub is_ipv6 : Ip → Bool
is_ipv6 (ipv4 address) = false
is_ipv6 (ipv6 address) = true

-- `::ffff:a.b.c.d`.
abbrev pub is_mapped : ℕ → Bool
is_mapped address = address / 2 ^ 32 == 0xffff

abbrev pub mapped : ℕ → ℕ
mapped address = 0xffff * 2 ^ 32 + address

abbrev pub unmapped : ℕ → ℕ
unmapped address = address % 2 ^ 32

-- The order of `SocketAddr`: IPv4 first, then field by field.
abbrev pub place : SocketAddr → List ℕ
place (v4 address port) = 4 ∷ address ∷ port ∷ []
place (v6 address port flowinfo scope) = 6 ∷ address ∷ port ∷ flowinfo ∷ scope ∷ []

unfoldable pub precedes : List ℕ → List ℕ → Bool
precedes [] [] = false
precedes [] (y ∷ ys) = true
precedes (x ∷ xs) [] = false
precedes (x ∷ xs) (y ∷ ys) = if x == y then precedes xs ys else ltb x y

unfoldable pub agrees : List ℕ → List ℕ → Bool
agrees [] [] = true
agrees [] (y ∷ ys) = false
agrees (x ∷ xs) [] = false
agrees (x ∷ xs) (y ∷ ys) = if x == y then agrees xs ys else false

pub agrees→eq : (xs ys : List ℕ) → agrees xs ys ≡ true → xs ≡ ys
unfolding agrees
agrees→eq [] [] h = refl
agrees→eq [] (y ∷ ys) h = cc
agrees→eq (x ∷ xs) [] h = cc
agrees→eq (x ∷ xs) (y ∷ ys) h = ground (arith, agrees→eq xs ys)

abbrev pub same : SocketAddr → SocketAddr → Bool
same a b = agrees (place a) (place b)

pub same_refl : (a : SocketAddr) → same a a ≡ true
unfolding agrees
same_refl (v4 address port) = ground arith
same_refl (v6 address port flowinfo scope) = ground arith

pub same→eq : (a b : SocketAddr) → same a b ≡ true → a ≡ b
unfolding agrees
same→eq (v4 a p) (v4 b q) h = ground arith
same→eq (v4 a p) (v6 b q f s) h = ground arith
same→eq (v6 b q f s) (v4 a p) h = ground arith
same→eq (v6 a p f s) (v6 b q g t) h = ground arith
