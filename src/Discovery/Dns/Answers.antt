-- ===== src/Discovery/Dns/Answers.antt =====
-- The response as a resolver reads it.
use huddle_cluster.Base.{
  ℕ, zero, suc, ◌+◌, ◌*◌, ◌/◌, ◌%◌, ◌<◌, ◌≤◌, ◌≡◌, ◌∙◌, refl, sym, ap, String, Option, none, some,
  List, [], ◌∷◌, ◌++◌, arith, length, take, drop, All, length-append, map, subst, lt→ltb,
}
use mathlib.Core.List.{append_assoc}
use huddle_cluster.Discovery.Dns.{
  Bytes, Aton, Address, rdata, answer, answers, build_dns_response, bytes_eq,
}
use huddle_cluster.Discovery.Dns.Names.{drop-append, encode, IsLabel, not_zero, length-encode}
use huddle_cluster.Discovery.Dns.Reader.{
  skip_name, skip_owner, read_record, and_then, read_answers, after_question, read_response,
}

-- The addresses that the texts stand for.
abbrev pub Resolves : Aton → List String → List Address → Type 0
Resolves aton [] [] = Unit
Resolves aton (ip ∷ ips) (a ∷ found) = (aton ip ≡ some a) × Resolves aton ips found
Resolves aton _ _ = ⊥

abbrev answered : List Address → Bytes
answered [] = []
answered (a ∷ found) = answer a ++ answered found

answers-answered :
    (aton : Aton) (ips : List String) (found : List Address)
    → Resolves aton ips found
    → (answers aton ips ≡ some (answered found)) × (length ips ≡ length found)
unfolding answers
answers-answered aton [] [] h = (refl, refl)
answers-answered aton [] (a ∷ found) h = elim h [ ]
answers-answered aton (ip ∷ ips) [] h = elim h [ ]
answers-answered aton (ip ∷ ips) (a ∷ found) h =
    let more = answers-answered aton ips found h.1 in (rw h.0 (rw more.0 refl), ap suc more.1)

read_record-answer :
    (a : Address) (rest : Bytes)
    → let bytes = answer a ++ rest in
      read_record bytes (skip_owner (length bytes) bytes) ≡ some (some (rdata a), rest)
unfolding bytes_eq answer
read_record-answer a rest = ground arith

-- A record that is read, and the records after it.
read_answers_cons :
    (n : ℕ) (bytes rest : Bytes) (address : Option Bytes) (found : List Bytes)
    → read_record bytes (skip_owner (length bytes) bytes) ≡ some (address, rest)
    → read_answers n rest ≡ some found
    → read_answers (suc n) bytes ≡ and_then address (some found)
unfolding read_answers
read_answers_cons n bytes rest address found h k = rw h (rw k refl)

-- The first answers, as many as are read.
read_answers-answered :
    (n : ℕ) (found : List Address)
    → n ≤ length found
    → read_answers n (answered found) ≡ some (take n (map rdata found))
unfolding read_answers
read_answers-answered zero found h = refl
read_answers-answered (suc n) [] h = absurd (omega (arith, h))
read_answers-answered (suc n) (a ∷ found) h =
    read_answers_cons n (answer a ++ answered found) (answered found) (some (rdata a))
      (take n (map rdata found)) (read_record-answer a (answered found))
      (read_answers-answered n found (omega (arith, h)))

take_all : {A : Type 0} (xs : List A) → take (length xs) xs ≡ xs
take_all [] = refl
take_all (x ∷ xs) = ap (λ r. x ∷ r) (take_all xs)

length-rdata : (found : List Address) → length (map rdata found) ≡ length found
length-rdata [] = refl
length-rdata (a ∷ found) = ap suc (length-rdata found)

read_all :
    (found : List Address) → read_answers (length found) (answered found) ≡ some (map rdata found)
read_all found =
    read_answers-answered (length found) found (omega arith)
    ∙ subst (λ n. some (take n (map rdata found)) ≡ some (map rdata found)) (length-rdata found)
        (ap some (take_all (map rdata found)))

skip_name-encode :
    (n : ℕ) (labels : List Bytes) (rest : Bytes)
    → All IsLabel labels
    → length labels < n
    → skip_name n (encode labels ++ rest) ≡ some rest
skip_name-encode zero labels rest h k = absurd (omega (arith, k))
skip_name-encode (suc n) [] rest h k = refl
skip_name-encode (suc n) (label ∷ labels) rest h k = rw (not_zero (length label) h.0.0) (
    rw (append_assoc label (encode labels) rest) (
      rw (drop-append label (encode labels ++ rest))
        (skip_name-encode n labels rest h.1 (omega (arith, k)))))

-- A query: its identifier, the rest of its header, the name, and the type and class of the question.
abbrev pub query : ℕ → ℕ → Bytes → List Bytes → Bytes → Bytes
query id0 id1 header labels tail = (id0 ∷ id1 ∷ header) ++ (encode labels ++ tail)

abbrev pub read_back : Option Bytes → Option (List Bytes)
read_back none = none
read_back (some packet) = read_response packet

pub drop-header : (header rest : Bytes) → length header ≡ 10 → drop 10 (header ++ rest) ≡ rest
drop-header header rest h = subst (λ n. drop n (header ++ rest) ≡ rest) h (drop-append header rest)

after_name :
    (n : ℕ) (labels : List Bytes) (rest : Bytes)
    → All IsLabel labels
    → after_question n (skip_name (length (encode labels ++ rest)) (encode labels ++ rest))
      ≡ read_answers n (drop 4 rest)
after_name n labels rest h = ap (after_question n) (
    skip_name-encode (length (encode labels ++ rest)) labels rest h
      (omega (arith, length-append (encode labels) rest, length-encode labels)))

read16-pack16 : (n : ℕ) → n < 65536 → n / 256 % 256 * 256 + n % 256 ≡ n
read16-pack16 n h = omega (arith, h)

-- A reader finds the answers after whatever the query has after its question.
read_back_lem :
    (aton : Aton) (ips : List String) (found : List Address) (id0 id1 : ℕ) (header : Bytes)
    → (labels : List Bytes) (t0 t1 c0 c1 : ℕ) (extra : Bytes) → Resolves aton ips found
    → length header ≡ 10
    → All IsLabel labels
    → length ips < 65536
    → read_back
        (build_dns_response aton (query id0 id1 header labels (t0 ∷ t1 ∷ c0 ∷ c1 ∷ extra)) ips)
      ≡ read_answers (length ips) (extra ++ answered found)
unfolding build_dns_response read_response
read_back_lem aton ips found id0 id1 header labels t0 t1 c0 c1 extra h k l m =
    let sent = answers-answered aton ips found h in
    let tail = t0 ∷ t1 ∷ c0 ∷ c1 ∷ extra in
    rw sent.0 (
      rw (lt→ltb (length ips) 65536 m) (
        rw (drop-header header (encode labels ++ tail) k) (
          rw (append_assoc (encode labels) tail (answered found)) (
            rw (read16-pack16 (length ips) m)
              (after_name (length ips) labels (tail ++ answered found) l)))))

-- A reader of the response finds the addresses that were to be sent, in order, if the query holds one
-- question and nothing after it, its labels are ASCII and not empty, and fewer than 65536 addresses
-- are sent.
pub read_back-build :
    (aton : Aton) (ips : List String) (found : List Address) (id0 id1 : ℕ) (header : Bytes)
    → (labels : List Bytes) (t0 t1 c0 c1 : ℕ) → Resolves aton ips found
    → length header ≡ 10
    → All IsLabel labels
    → length ips < 65536
    → read_back (build_dns_response aton (query id0 id1 header labels (t0 ∷ t1 ∷ c0 ∷ c1 ∷ [])) ips)
      ≡ some (map rdata found)
read_back-build aton ips found id0 id1 header labels t0 t1 c0 c1 h k l m =
    read_back_lem aton ips found id0 id1 header labels t0 t1 c0 c1 [] h k l m
    ∙ subst (λ n. read_answers n (answered found) ≡ some (map rdata found))
        (sym (answers-answered aton ips found h).1) (read_all found)

-- A record of another kind, as the record of EDNS: the root as its name, type, class, time to live,
-- and data of the length that its RDLENGTH says.
abbrev pub other_record : Bytes → Bytes → Bytes
other_record kind body = 0 ∷ kind ++ (length body / 256 % 256 ∷ length body % 256 ∷ body)

read_record-other :
    (k0 k1 k2 k3 k4 k5 k6 k7 : ℕ) (body rest : Bytes)
    → length body < 65536
    → let kind : Bytes = k0 ∷ k1 ∷ k2 ∷ k3 ∷ k4 ∷ k5 ∷ k6 ∷ k7 ∷ [] in
      let bytes = other_record kind body ++ rest in
      read_record bytes (skip_owner (length bytes) bytes) ≡ some (none, rest)
unfolding bytes_eq
read_record-other k0 k1 k2 k3 k4 k5 k6 k7 body rest h =
    rw (read16-pack16 (length body) h)
      (rw (drop-append body rest) (ground (arith, length-append body rest)))

read_answers-other :
    (n k0 k1 k2 k3 k4 k5 k6 k7 : ℕ) (body rest : Bytes) (found : List Bytes)
    → length body < 65536
    → read_answers n rest ≡ some found
    → read_answers (suc n) (other_record (k0 ∷ k1 ∷ k2 ∷ k3 ∷ k4 ∷ k5 ∷ k6 ∷ k7 ∷ []) body ++ rest)
      ≡ some found
read_answers-other n k0 k1 k2 k3 k4 k5 k6 k7 body rest found d h =
    read_answers_cons n (other_record (k0 ∷ k1 ∷ k2 ∷ k3 ∷ k4 ∷ k5 ∷ k6 ∷ k7 ∷ []) body ++ rest)
      rest none found (read_record-other k0 k1 k2 k3 k4 k5 k6 k7 body rest d) h

-- A query that has one record after its question, with the root as its name, as dig sends it for
-- EDNS, gets the record back in front of the answers, and it is counted as one of them: a reader that
-- skips it by its RDLENGTH finds all addresses but the last, and none where one is sent; if the labels
-- of the query are ASCII and not empty, and fewer than 65536 addresses are sent.
pub read_back-edns :
    (aton : Aton) (ip : String) (ips : List String) (found : List Address) (id0 id1 : ℕ)
    (header : Bytes)
    → (labels : List Bytes) (t0 t1 c0 c1 k0 k1 k2 k3 k4 k5 k6 k7 : ℕ) (body : Bytes)
    → Resolves aton (ip ∷ ips) found
    → length header ≡ 10
    → All IsLabel labels
    → length (ip ∷ ips) < 65536
    → length body < 65536
    → let kind : Bytes = k0 ∷ k1 ∷ k2 ∷ k3 ∷ k4 ∷ k5 ∷ k6 ∷ k7 ∷ [] in
      read_back (
        build_dns_response aton
          (query id0 id1 header labels (t0 ∷ t1 ∷ c0 ∷ c1 ∷ other_record kind body))
          (ip ∷ ips))
      ≡ some (take (length ips) (map rdata found))
read_back-edns aton ip ips found id0 id1 header labels t0 t1 c0 c1 k0 k1 k2 k3 k4 k5 k6 k7 body h k
      l m d =
    let kind : Bytes = k0 ∷ k1 ∷ k2 ∷ k3 ∷ k4 ∷ k5 ∷ k6 ∷ k7 ∷ [] in
    read_back_lem aton (ip ∷ ips) found id0 id1 header labels t0 t1 c0 c1 (other_record kind body) h
      k l m
    ∙ read_answers-other (length ips) k0 k1 k2 k3 k4 k5 k6 k7 body (answered found)
        (take (length ips) (map rdata found)) d
        (read_answers-answered (length ips) found
          (omega (arith, (answers-answered aton (ip ∷ ips) found h).1)))
