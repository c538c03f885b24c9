-- ===== src/Services/Ip.antt =====
-- Network addresses, dev/ZKAKit/src/Network/IP.cc.
pub mod Address
pub mod Version
use zka.Common.{
  ℕ, zero, suc, ◌+◌, Bool, true, false, List, [], ◌∷◌, ltb, ◌==◌, if◌then◌else◌, replicate,
}
use zka.NewKit.Utils.{at, string_len, copy_loop, copy_memory, equals_loop}
use zka.NewKit.String.{differ_loop}

-- The bytes of RawIPAddress and of RawIPAddress6.
abbrev pub address_size : ℕ
address_size = 4

abbrev pub address6_size : ℕ
address6_size = 8

-- The constructors of both classes, for their sizes.
unfoldable pub address : ℕ → List ℕ → List ℕ
unfolding copy_memory
address size bytes = (copy_memory bytes (replicate size 0) size).0

-- operator== and operator!= of both classes, for their sizes.
unfoldable pub address_equal : ℕ → List ℕ → List ℕ → Bool
unfolding equals_loop
address_equal size this other = equals_loop size 0 this other

unfoldable pub address_differ : ℕ → List ℕ → List ℕ → Bool
unfolding differ_loop
address_differ size this other = differ_loop size 0 this other

-- operator[] of both classes, for their sizes; `behind` is the byte behind the address.
unfoldable pub address_at : ℕ → List ℕ → ℕ → ℕ → ℕ
address_at size this behind index =
    if ltb size index then b'0' else if index == size then behind else at this index

-- The loop of IPFactory::IpCheckVersion4: `n` rounds are left, from `base` on.
unfoldable pub check_loop : (n base cnter : ℕ) → List ℕ → Bool
check_loop zero base cnter ip = true
check_loop (suc n) base cnter ip =
    let dot = check_loop n (base + 1) 0 ip in
    let other = check_loop n (base + 1) (cnter + 1) ip in
    if at ip base == b'.' then dot else if cnter == 3 then false else other

unfoldable pub ip_check_version4 : List ℕ → Bool
unfolding check_loop string_len
ip_check_version4 ip = check_loop (string_len ip) 0 0 ip
