-- ===== src/Dbft/ChangingView/Least.antt =====
-- minNode sorts the ids, GetAccountWithMinId runs through the accounts: both find the least id.
use galaxy.Base.{
  ℕ, ◌^◌, ◌≤◌, ◌<◌, ◌≡◌, refl, ap, ◌∙◌, inl, inr, true, false, Bool-cases, List, [], ◌∷◌, some, In,
  arith, map, leb, if◌then◌else◌,
}
use galaxy.Base.Outcome.{returns}
use galaxy.Account.{Account}
use galaxy.Utils.{get_account_with_min_id}
use galaxy.Utils.Choice.{get_account_with_min_id-IsLeast}
use galaxy.Dbft.ChangingView.{min_node, sort_ints, sort_in, int64_le}

-- The head of a sorted list, with an end for the empty one.
least : ℕ → List ℕ → ℕ
least n [] = n
least n (m ∷ ids) = let rest = least m ids in if leb n rest then n else rest

abbrev IsSmall : List ℕ → Type 0
IsSmall ids = (n : ℕ) → In n ids → n < 2 ^ 63

int64_le_small : (a b : ℕ) → a < 2 ^ 63 → b < 2 ^ 63 → int64_le a b ≡ leb a b
int64_le_small a b h k = ground arith

sort_in-first :
    (n m : ℕ) (rest : List ℕ) → int64_le n m ≡ true → sort_in n (m ∷ rest) ≡ n ∷ m ∷ rest
unfolding sort_in
sort_in-first n m rest e = rw e refl

sort_in-later :
    (n m : ℕ) (rest : List ℕ) → int64_le n m ≡ false → sort_in n (m ∷ rest) ≡ m ∷ sort_in n rest
unfolding sort_in
sort_in-later n m rest e = rw e refl

sort_in-head :
    (n m : ℕ) (rest : List ℕ)
    → n < 2 ^ 63
    → m < 2 ^ 63
    → (tail : List ℕ) × (sort_in n (m ∷ rest) ≡ (if leb n m then n else m) ∷ tail)
sort_in-head n m rest h k = elim (Bool-cases (leb n m)) [
  | inl t ↦ (m ∷ rest, rw t (sort_in-first n m rest (int64_le_small n m h k ∙ t)))
  | inr f ↦ (sort_in n rest, rw f (sort_in-later n m rest (int64_le_small n m h k ∙ f)))
]

least-small : (n : ℕ) (ids : List ℕ) → IsSmall (n ∷ ids) → least n ids < 2 ^ 63
unfolding least
least-small n [] small = small n (inl refl)
least-small n (m ∷ ids) small =
    ground (arith, least-small m ids (λ k i. small k (inr i)), small n (inl refl))

sort_ints-head :
    (n : ℕ) (ids : List ℕ)
    → IsSmall (n ∷ ids)
    → (tail : List ℕ) × (sort_ints (n ∷ ids) ≡ least n ids ∷ tail)
unfolding sort_ints least sort_in
sort_ints-head n [] small = ([], refl)
sort_ints-head n (m ∷ ids) small =
    let (tail, e) = sort_ints-head m ids (λ k i. small k (inr i)) in
    let (tail', f) =
      sort_in-head n (least m ids) tail (small n (inl refl))
        (least-small m ids (λ k i. small k (inr i))) in
    (tail', ap (sort_in n) e ∙ f)

least-In : (n : ℕ) (ids : List ℕ) → In (least n ids) (n ∷ ids)
unfolding least
least-In n [] = inl refl
least-In n (m ∷ ids) = ground (arith, least-In m ids)

least-le : (n k : ℕ) (ids : List ℕ) → In k (n ∷ ids) → least n ids ≤ k
unfolding least
least-le n k [] (inl e) = omega (arith, e)
least-le n k [] (inr i) = absurd i
least-le n k (m ∷ ids) (inl e) = ground (arith, e)
least-le n k (m ∷ ids) (inr i) = ground (arith, least-le m k ids i)

abbrev pub id_of : Account → ℕ
id_of node = node.extension.id

In-map : (a : Account) (nodes : List Account) → In a nodes → In (id_of a) (map id_of nodes)
In-map a [] i = i
In-map a (b ∷ nodes) (inl e) = inl (ap id_of e)
In-map a (b ∷ nodes) (inr i) = inr (In-map a nodes i)

-- An id of the list is that of one of its accounts.
map-In :
    (n : ℕ) (nodes : List Account)
    → In n (map id_of nodes)
    → (a : Account) × In a nodes × (n ≡ id_of a)
map-In n [] i = absurd i
map-In n (b ∷ nodes) (inl e) = (b, inl refl, e)
map-In n (b ∷ nodes) (inr i) = let (a, j, e) = map-In n nodes i in (a, inr j, e)

IsSmall-ids :
    (nodes : List Account)
    → ((b : Account) → In b nodes → b.extension.id < 2 ^ 63)
    → IsSmall (map id_of nodes)
IsSmall-ids nodes small n i = let (b, j, e) = map-In n nodes i in ground (arith, small b j)

-- minNode, which sorts the ids as signed numbers, and GetAccountWithMinId, which compares the accounts
-- one by one, agree on any list that is not empty, if all ids are below 2 ^ 63.
pub min_node-get_account_with_min_id :
    (a : Account) (nodes : List Account)
    → ((b : Account) → In b (a ∷ nodes) → b.extension.id < 2 ^ 63)
    → (m : Account) × (get_account_with_min_id (a ∷ nodes) ≡ some m)
      × (min_node (a ∷ nodes) ≡ returns m.extension.id)
unfolding min_node
min_node-get_account_with_min_id a nodes small =
    let (m, e, h) = get_account_with_min_id-IsLeast a nodes in
    let (tail, f) = sort_ints-head (id_of a) (map id_of nodes) (IsSmall-ids (a ∷ nodes) small) in
    let (b, j, g) =
      map-In (least (id_of a) (map id_of nodes)) (a ∷ nodes)
        (least-In (id_of a) (map id_of nodes)) in
    let same : least (id_of a) (map id_of nodes) ≡ m.extension.id = omega (
      arith,
      g,
      h.1 b j,
      least-le (id_of a) (id_of m) (map id_of nodes) (In-map m (a ∷ nodes) h.0),
    ) in
    (m, e, rw (f, min_node) (ap returns same))
