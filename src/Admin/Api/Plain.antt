-- ===== src/Admin/Api/Plain.antt =====
-- Names in the paths of the site's requests that the parsers of URLs keep.
use dmqtt.Base.{◌≡◌, ◌≢◌, refl, Bytes, [], ◌∷◌, ◌++◌, true, false, arith}
use dmqtt.Broker.Topic.{contains}
use dmqtt.Admin.Api.{plain_rest}

plain_behind :
    (id rest : Bytes)
    → contains b'/' id ≡ false
    → plain_rest false id ≡ true
    → plain_rest false (id ++ (b'/' ∷ rest)) ≡ plain_rest true rest
unfolding contains plain_rest
plain_behind [] rest h k = refl
plain_behind (c ∷ id) rest h k = ground (arith, plain_behind id rest)

-- A name and what is behind the slash that follows it.
pub plain_rest-slash :
    (id rest : Bytes)
    → id ≢ []
    → contains b'/' id ≡ false
    → plain_rest true id ≡ true
    → plain_rest true (id ++ (b'/' ∷ rest)) ≡ plain_rest true rest
unfolding contains plain_rest
plain_rest-slash [] rest named h k = absurd (named refl)
plain_rest-slash (c ∷ id) rest named h k = ground (arith, plain_behind id rest)
