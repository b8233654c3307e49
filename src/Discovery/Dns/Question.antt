-- ===== src/Discovery/Dns/Question.antt =====
-- The service that a question asks for.
use huddle_cluster.Base.{
  ℕ, ◌-◌, ◌≡◌, refl, ap, String, true, some, List, [], ◌∷◌, ◌++◌, arith, leb, length, keep, All,
  length-append,
}
use huddle_cluster.Discovery.Dns.{
  Bytes, Aton, joined, lower, lower_byte, bytes_eq, before_suffix, read_labels, name_of, service_of,
  respond, is_valid_ipv4, handle_dns_query,
}
use huddle_cluster.Discovery.Dns.Names.{
  take-append, drop-append, encode, IsLabel, read_labels-encode,
}
use huddle_cluster.Discovery.Dns.Answers.{query, drop-header}

bytes_eq_refl : (bs : Bytes) → bytes_eq bs bs ≡ true
unfolding bytes_eq
bytes_eq_refl [] = refl
bytes_eq_refl (b ∷ bs) = ground (arith, bytes_eq_refl bs)

lower-append : (xs ys : Bytes) → lower (xs ++ ys) ≡ lower xs ++ lower ys
unfolding lower
lower-append [] ys = refl
lower-append (x ∷ xs) ys = ap (λ t. lower_byte x ∷ t) (lower-append xs ys)

before_suffix-append : (name suffix : Bytes) → before_suffix suffix (name ++ suffix) ≡ some name
unfolding before_suffix
before_suffix-append name suffix =
    let at : length (name ++ suffix) - length suffix ≡ length name =
      omega (arith, length-append name suffix) in
    let long : leb (length suffix) (length (name ++ suffix)) ≡ true =
      ground (arith, length-append name suffix) in
    rw at (
      rw long (
        rw (drop-append name suffix)
          (rw (bytes_eq_refl suffix) (rw (take-append name suffix) refl))))

-- A question for a label in the responder's domain, in any case, asks for the service with that label
-- in lower case.
pub service_of-read_labels :
    (label d : Bytes) (ds : List Bytes) (tail : Bytes)
    → All IsLabel (label ∷ d ∷ ds)
    → let question = encode (label ∷ d ∷ ds) ++ tail in
      service_of (joined (d ∷ ds)) (name_of (read_labels (length question) question))
      ≡ some (lower label)
unfolding joined
service_of-read_labels label d ds tail h = rw (read_labels-encode (label ∷ d ∷ ds) tail h) (
    rw (lower-append label (46 ∷ joined (d ∷ ds)))
      (before_suffix-append (lower label) (lower (46 ∷ joined (d ∷ ds)))))

-- A query for a service of the domain is answered with the valid addresses of the service's nodes.
pub handle_dns_query_lem :
    (aton : Aton) (addresses : Bytes → List String) (id0 id1 : ℕ) (header label d : Bytes)
    → (ds : List Bytes) (tail : Bytes) → length header ≡ 10
    → All IsLabel (label ∷ d ∷ ds)
    → let packet = query id0 id1 header (label ∷ d ∷ ds) tail in
      handle_dns_query aton (joined (d ∷ ds)) addresses packet
      ≡ respond aton packet (keep (is_valid_ipv4 aton) (addresses (lower label)))
unfolding handle_dns_query
handle_dns_query_lem aton addresses id0 id1 header label d ds tail k h =
    rw (drop-header header (encode (label ∷ d ∷ ds) ++ tail) k)
      (rw (service_of-read_labels label d ds tail h) refl)
