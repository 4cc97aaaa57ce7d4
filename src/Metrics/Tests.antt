-- ===== src/Metrics/Tests.antt =====
-- The theorems on storage keys at concrete keys, with dates that are their texts.
use mathlib.Core.Option.{some-injective}
use hazelcast_commandline_cl.Prelude.{◌≡◌, refl, sym, Option, some, Text, codes}
use hazelcast_commandline_cl.Strings.Split.{contains, split}
use hazelcast_commandline_cl.Metrics.{StorageKey, new_storage_key, marshal, unmarshal}
use hazelcast_commandline_cl.Metrics.RoundTrip.{unmarshal-marshal, marshal-unmarshal}

abbrev format : Text → Text
format date = date

abbrev parse : Text → Option Text
parse s = some s

abbrev key : StorageKey Text
key =
    new_storage_key (codes "2023-05-16") (codes "cid") (codes "vid") (codes "MC") (codes "5.3.0")
      (codes "total.sql")

unmarshal-marshal_example : unmarshal format parse (marshal format parse key) ≡ some key
unfolding contains
unmarshal-marshal_example =
    unmarshal-marshal format parse key refl
      (refl, (refl, (refl, (refl, (refl, (refl, (refl, tt)))))))

key_read : unmarshal format parse (codes "ph^2023-05-16^cid^vid^MC^5.3.0^total.sql") ≡ some key
unfolding unmarshal split
key_read = refl

marshal-unmarshal_example :
    marshal format parse key ≡ codes "ph^2023-05-16^cid^vid^MC^5.3.0^total.sql"
marshal-unmarshal_example =
    marshal-unmarshal format parse (codes "ph^2023-05-16^cid^vid^MC^5.3.0^total.sql") key
      (λ s d e. sym (some-injective s d e)) key_read
