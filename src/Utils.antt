-- ===== src/Utils.antt =====
-- consensus/utils/utils.go: the distance of two views, and choices among accounts.
pub mod Distance
pub mod Choice
mod Examples
use Prim.Native.Nat.{bit_xor}
use galaxy.Base.{
  ℕ, ◌^◌, ◌-◌, Bool, List, [], ◌∷◌, Option, none, some, ltb, leb, ◌==◌, if◌then◌else◌, ite,
}
use galaxy.Base.Words.{sub64}
use galaxy.Account.{Account, Account-discrete, no_account}

-- The sign mask of an int64: `n >> 63` keeps the sign bit in all 64 places.
abbrev pub sign_mask : ℕ → ℕ
sign_mask n = if ltb n (2 ^ 63) then 0 else 0xffff_ffff_ffff_ffff

-- The bit pattern of the int64 that `Abs` returns.
pub abs : ℕ → ℕ → ℕ
abs x y = let n = sub64 x y in let z = sign_mask n in sub64 (bit_xor n z) z

-- `a > b` between an int64, as a bit pattern, and one that is not negative.
abbrev pub int64_gt : ℕ → ℕ → Bool
int64_gt a b = if ltb a (2 ^ 63) then ltb b a else Bool.false

-- filterAccount
pub filter_account : Account → List Account → List Account
filter_account black [] = []
filter_account black (a ∷ rest) =
    let kept = filter_account black rest in ite (Account-discrete black a) kept (a ∷ kept)

-- The loop of AccountFilter, over the blacklist, with `peer` so far.
filter_loop : List Account → List Account → List Account → List Account
filter_loop [] accounts peer = peer
filter_loop (black ∷ rest) accounts peer = filter_loop rest accounts (filter_account black accounts)

-- AccountFilter
pub account_filter : List Account → List Account → List Account
unfolding filter_loop
account_filter blacklist accounts = filter_loop blacklist accounts []

-- The loop of GetAccountById, with `temp` so far.
by_id_loop : List Account → ℕ → Account → Account
by_id_loop [] expect temp = temp
by_id_loop (peer ∷ peers) expect temp =
    by_id_loop peers expect (if peer.extension.id == expect then peer else temp)

-- GetAccountById
unfoldable pub get_account_by_id : List Account → ℕ → Account
unfolding by_id_loop
get_account_by_id peers expect = by_id_loop peers expect no_account

-- The loop of GetAccountWithMinId.
min_loop : List Account → Account → Account
min_loop [] best = best
min_loop (node ∷ nodes) best =
    min_loop nodes (if ltb node.extension.id best.extension.id then node else best)

-- GetAccountWithMinId; `none` is the index panic on an empty slice.
unfoldable pub get_account_with_min_id : List Account → Option Account
unfolding min_loop
get_account_with_min_id [] = none
get_account_with_min_id (a ∷ rest) = some (min_loop (a ∷ rest) a)
