-- ===== src/Account.antt =====
-- The types of craft and validator as the library uses them: the fields that its code reads or
-- writes, and `==` on an account. A hash or an address is its bytes read as one number.
use galaxy.Base.{ℕ, List, ℕ_discrete}

-- account.AccountExtension; a URL by its bytes.
pub record AccountExtension : Type 0 where
  pub id : ℕ
  pub url : List ℕ

-- account.Account. Go's `==` compares every field.
pub record Account : Type 0 where
  pub address : ℕ
  pub extension : AccountExtension

Bytes-discrete : Discrete (List ℕ)
Bytes-discrete = hlevel ℕ_discrete

unfoldable pub Account-discrete : Discrete Account
unfolding Bytes-discrete ℕ_discrete
Account-discrete = hlevel (ℕ_discrete, Bytes-discrete)

-- account.Account{}
abbrev pub no_account : Account
no_account = record { address = 0; extension = record { id = 0; url = List.[] } }

-- A signature, a []byte.
abbrev pub Signature : Type 0
Signature = List ℕ

-- types.Header and types.Block. Of a transaction the code only asks how many there are.
pub record Header : Type 0 where
  pub height : ℕ
  pub mix_digest : ℕ
  pub prev_block_hash : ℕ
  pub sig_data : List Signature

pub record Block : Type 0 where
  pub header : Header
  pub header_hash : ℕ
  pub transactions : List ℕ
