-- ===== src/Utils/Choice.antt =====
-- Which accounts the choices of utils.go return.
use galaxy.Base.{
  ℕ, ◌≤◌, ◌≡◌, refl, ◌≢◌, ◌⊎◌, ◌↔◌, inl, inr, false, List, [], ◌∷◌, ◌++◌, some, arith, In, ltb,
  ◌==◌, if◌then◌else◌,
}
use galaxy.Account.{Account, no_account}
use galaxy.Utils.{
  filter_account, filter_loop, account_filter, by_id_loop, get_account_by_id, min_loop,
  get_account_with_min_id,
}

-- The account is one of the list, and none of the list has a smaller id.
abbrev pub IsLeast : Account → List Account → Type 0
IsLeast m nodes = In m nodes × ((b : Account) → In b nodes → m.extension.id ≤ b.extension.id)

-- The loop ends with `best` or one of the rest, below both.
min_loop-le :
    (nodes : List Account) (best : Account) → (min_loop nodes best).extension.id ≤ best.extension.id
unfolding min_loop
min_loop-le [] best = omega arith
min_loop-le (a ∷ nodes) best =
    ground (arith, min_loop-le nodes (if ltb a.extension.id best.extension.id then a else best))

min_loop-In :
    (nodes : List Account) (best : Account)
    → (min_loop nodes best ≡ best) ⊎ In (min_loop nodes best) nodes
unfolding min_loop
min_loop-In [] best = inl refl
min_loop-In (a ∷ nodes) best =
    ground (arith, min_loop-In nodes (if ltb a.extension.id best.extension.id then a else best))

min_loop-least :
    (nodes : List Account) (best b : Account)
    → In b nodes
    → (min_loop nodes best).extension.id ≤ b.extension.id
unfolding min_loop
min_loop-least [] best b h = elim h [ ]
min_loop-least (a ∷ nodes) best b (inl e) =
    ground (arith, min_loop-le nodes (if ltb a.extension.id best.extension.id then a else best))
min_loop-least (a ∷ nodes) best b (inr h) = min_loop-least nodes _ b h

-- On a list that is not empty the choice succeeds, with an account of the list whose id no other
-- account of the list undercuts.
pub get_account_with_min_id-IsLeast :
    (a : Account) (nodes : List Account)
    → (m : Account) × (get_account_with_min_id (a ∷ nodes) ≡ some m) × IsLeast m (a ∷ nodes)
unfolding get_account_with_min_id
get_account_with_min_id-IsLeast a nodes = (
  min_loop (a ∷ nodes) a,
  refl,
  (found (min_loop-In (a ∷ nodes) a), min_loop-least (a ∷ nodes) a),
)
  where
    found :
        (min_loop (a ∷ nodes) a ≡ a) ⊎ In (min_loop (a ∷ nodes) a) (a ∷ nodes)
        → In (min_loop (a ∷ nodes) a) (a ∷ nodes)
    found (inl e) = inl e
    found (inr h) = h

filtered_sound :
    (black b : Account) (nodes : List Account)
    → In b (filter_account black nodes)
    → In b nodes × (b ≢ black)
unfolding filter_account
filtered_sound black b [] h = elim h [ ]
filtered_sound black b (a ∷ nodes) h = ground (arith, filtered_sound black b nodes)

filtered_complete :
    (black b : Account) (nodes : List Account)
    → In b nodes
    → b ≢ black
    → In b (filter_account black nodes)
unfolding filter_account
filtered_complete black b [] h n = h
filtered_complete black b (a ∷ nodes) h n = ground (arith, filtered_complete black b nodes)

-- The filter drops the given account at every place where it stands, and no other account.
pub filter_account-In :
    (black b : Account) (nodes : List Account)
    → In b (filter_account black nodes) ↔ (In b nodes × (b ≢ black))
filter_account-In black b nodes =
    (filtered_sound black b nodes, λ h. filtered_complete black b nodes h.0 h.1)

filter_loop-last :
    (bs : List Account) (b : Account) (accounts peer : List Account)
    → filter_loop (bs ++ b ∷ []) accounts peer ≡ filter_account b accounts
unfolding filter_loop
filter_loop-last [] b accounts peer = refl
filter_loop-last (c ∷ bs) b accounts peer =
    filter_loop-last bs b accounts (filter_account c accounts)

-- Only the last entry of a blacklist counts: the entries before it are ignored, because every
-- round of the loop starts again from the whole list. An empty blacklist drops every account.
account_filter_last :
    (bs : List Account) (b : Account) (accounts : List Account)
    → (account_filter (bs ++ b ∷ []) accounts ≡ filter_account b accounts)
      × (account_filter [] accounts ≡ [])
unfolding account_filter
account_filter_last bs b accounts = (filter_loop-last bs b accounts [], refl)

by_id_loop-found :
    (peers : List Account) (expect : ℕ) (temp : Account)
    → temp.extension.id ≡ expect
    → (by_id_loop peers expect temp).extension.id ≡ expect
unfolding by_id_loop
by_id_loop-found [] expect temp h = h
by_id_loop-found (p ∷ ps) expect temp h =
    ground (arith, by_id_loop-found ps expect p, by_id_loop-found ps expect temp)

by_id_loop-hit :
    (peers : List Account) (expect : ℕ) (temp p : Account)
    → In p peers
    → p.extension.id ≡ expect
    → (by_id_loop peers expect temp).extension.id ≡ expect
unfolding by_id_loop
by_id_loop-hit [] expect temp p h e = elim h [ ]
by_id_loop-hit (q ∷ ps) expect temp p (inl i) e = ground (arith, by_id_loop-found ps expect q)
by_id_loop-hit (q ∷ ps) expect temp p (inr i) e =
    by_id_loop-hit ps expect (if q.extension.id == expect then q else temp) p i e

by_id_loop-In :
    (peers : List Account) (expect : ℕ) (temp : Account)
    → (by_id_loop peers expect temp ≡ temp) ⊎ In (by_id_loop peers expect temp) peers
unfolding by_id_loop
by_id_loop-In [] expect temp = inl refl
by_id_loop-In (q ∷ ps) expect temp =
    ground (arith, by_id_loop-In ps expect (if q.extension.id == expect then q else temp))

-- Where some peer has the id, the result has it too; and the result is always one of the peers or
-- the zero account.
get_account_by_id-found :
    (peers : List Account) (expect : ℕ) (p : Account)
    → In p peers
    → p.extension.id ≡ expect
    → ((get_account_by_id peers expect).extension.id ≡ expect)
      × ((get_account_by_id peers expect ≡ no_account) ⊎ In (get_account_by_id peers expect) peers)
unfolding get_account_by_id
get_account_by_id-found peers expect p h e =
    (by_id_loop-hit peers expect no_account p h e, by_id_loop-In peers expect no_account)

pub get_account_by_id-In :
    (peers : List Account) (expect : ℕ)
    → (get_account_by_id peers expect ≡ no_account) ⊎ In (get_account_by_id peers expect) peers
unfolding get_account_by_id
get_account_by_id-In peers expect = by_id_loop-In peers expect no_account

by_id_loop-unknown :
    (peers : List Account) (expect : ℕ) (temp : Account)
    → ((p : Account) → In p peers → p.extension.id ≢ expect)
    → by_id_loop peers expect temp ≡ temp
unfolding by_id_loop
by_id_loop-unknown [] expect temp h = refl
by_id_loop-unknown (q ∷ ps) expect temp h =
    let other : (q.extension.id == expect) ≡ false = ground (arith, h q (inl refl)) in
    rw other (by_id_loop-unknown ps expect temp (λ p i. h p (inr i)))

pub get_account_by_id-unknown :
    (peers : List Account) (expect : ℕ)
    → ((p : Account) → In p peers → p.extension.id ≢ expect)
    → get_account_by_id peers expect ≡ no_account
unfolding get_account_by_id
get_account_by_id-unknown peers expect h = by_id_loop-unknown peers expect no_account h
