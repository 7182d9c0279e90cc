-- ===== src/Solo/Examples.antt =====
-- A node alone, whose validator adds its signature.
use galaxy.Base.{true, false, [], ◌∷◌, ◌++◌, some, none}
use galaxy.Solo.{SoloPolicy, Validator}
use galaxy.Fbft.Fixture.{node}

abbrev own_signature : Validator
own_signature = record {
  recover = λ d s. elim s [ [] ↦ none | x ∷ rest ↦ some x ];
  validate_block = λ a b f.
      let header = b.header in
      some (record b {
        header = record header { sig_data = header.sig_data ++ (a.address ∷ []) ∷ [] };
      });
  rlp_hash = λ b. 100;
}

abbrev alone : SoloPolicy
alone = record {
  version = 7;
  local = node 1;
  peers = node 1 ∷ [];
  master = node 1;
  enable_empty_block = false;
  enable_local_signature_verify = true;
}
