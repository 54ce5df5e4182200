-- ===== src/Adapter/Args/Lists.antt =====
-- The offered lists on the clients' command lines.
use pqc_sec_inspection_cours.Prelude.{
  arith, ◌≡◌, refl, ◌≢◌, ◌⊎◌, inl, inr, not, List, [], ◌∷◌, ◌++◌, map, Text, All, codes, join,
  is_empty, split_on, Free, split_on-join,
}
use pqc_sec_inspection_cours.Proto.{ProbeRequest}
use pqc_sec_inspection_cours.Adapter.Groups.{
  Backend, openssl, boringssl, wolfssl, mock, openssl_spellings, wolfssl_spellings, spellings,
  stack_group, stack_groups,
}
use pqc_sec_inspection_cours.Adapter.Groups.Spelling.{translate-elim}
use pqc_sec_inspection_cours.Adapter.Args.{openssl_args, boringssl_args, push_if, connect_arg, sni}

-- In the arguments, `flag` is followed by `value`.
abbrev pub Follows : (flag value : Text) → List Text → Type 0
Follows flag value [] = ⊥
Follows flag value (a ∷ []) = ⊥
Follows flag value (a ∷ b ∷ args) = ((a ≡ flag) × (b ≡ value)) ⊎ Follows flag value (b ∷ args)

-- `flag` is followed by a text that is `values` when it is split at the colons.
abbrev pub Carries : (flag : Text) → (values args : List Text) → Type 0
Carries flag values args = (value : Text) × Follows flag value args × (split_on b':' value ≡ values)

Follows-append :
    (flag value : Text) (xs ys : List Text) → Follows flag value ys → Follows flag value (xs ++ ys)
Follows-append flag value [] ys h = h
Follows-append flag value (x ∷ []) [] h = absurd h
Follows-append flag value (x ∷ []) (y ∷ ys) h = inr h
Follows-append flag value (x ∷ z ∷ xs) ys h = inr (Follows-append flag value (z ∷ xs) ys h)

Follows-append_right :
    (flag value : Text) (xs ys : List Text) → Follows flag value xs → Follows flag value (xs ++ ys)
Follows-append_right flag value [] ys h = absurd h
Follows-append_right flag value (x ∷ []) ys h = absurd h
Follows-append_right flag value (x ∷ z ∷ xs) ys (inl h) = inl h
Follows-append_right flag value (x ∷ z ∷ xs) ys (inr h) =
    inr (Follows-append_right flag value (z ∷ xs) ys h)

Carries-append :
    (flag : Text) (values xs ys : List Text)
    → Carries flag values ys
    → Carries flag values (xs ++ ys)
Carries-append flag values xs ys (value, h, e) = (value, Follows-append flag value xs ys h, e)

Carries-append_right :
    (flag : Text) (values xs ys : List Text)
    → Carries flag values xs
    → Carries flag values (xs ++ ys)
Carries-append_right flag values xs ys (value, h, e) =
    (value, Follows-append_right flag value xs ys h, e)

push_if-Carries :
    (flag : Text) (offered values : List Text)
    → offered ≢ []
    → values ≢ []
    → All (Free b':') values
    → Carries flag values (push_if (not (is_empty offered)) (flag ∷ join (codes ":") values ∷ []))
push_if-Carries flag [] values n m h = absurd (n refl)
push_if-Carries flag (o ∷ os) [] n m h = absurd (m refl)
push_if-Carries flag (o ∷ os) (v ∷ vs) n m h =
    (join (codes ":") (v ∷ vs), inl (refl, refl), (unfold codes in split_on-join b':' v vs h))

openssl-Free : All (λ arm. Free b':' arm.1) openssl_spellings
unfolding codes
openssl-Free = ground arith

wolfssl-Free : All (λ arm. Free b':' arm.1) wolfssl_spellings
unfolding codes
wolfssl-Free = ground arith

spellings-Free : (backend : Backend) → All (λ arm. Free b':' arm.1) (spellings backend)
spellings-Free openssl = openssl-Free
spellings-Free boringssl = openssl-Free
spellings-Free wolfssl = wolfssl-Free
spellings-Free mock = tt

map-ne-nil : (f : Text → Text) (ts : List Text) → ts ≢ [] → map f ts ≢ []
map-ne-nil f [] n e = n refl
map-ne-nil f (t ∷ ts) n e = cc

stack_group-Free :
    (backend : Backend) (name : Text) → Free b':' name → Free b':' (stack_group backend name)
unfolding stack_group
stack_group-Free backend name h =
    translate-elim (λ arm. Free b':' arm.1) (Free b':') (spellings backend) _ name
      (spellings-Free backend) (λ from to e f. f) (λ e. h)

map-Free :
    (f : Text → Text)
    → ((t : Text) → Free b':' t → Free b':' (f t))
    → (ts : List Text) → All (Free b':') ts
    → All (Free b':') (map f ts)
map-Free f h [] _ = tt
map-Free f h (t ∷ ts) (k, l) = (h t k, map-Free f h ts l)

groups-Carries :
    (backend : Backend) (flag : Text) (groups : List Text)
    → groups ≢ []
    → All (Free b':') groups
    → let spelled = map (stack_group backend) groups in
      Carries flag spelled (push_if (not (is_empty groups)) (flag ∷ join (codes ":") spelled ∷ []))
groups-Carries backend flag groups n free =
    push_if-Carries flag groups _ n (map-ne-nil (stack_group backend) groups n)
      (map-Free (stack_group backend) (stack_group-Free backend) groups free)

-- OpenSSL's arguments after the fixed ones.
openssl_args-Carries :
    (flag : Text) (values : List Text) (request : ProbeRequest)
    → Carries flag values (
        push_if
          (not (is_empty request.kem_groups))
          (codes "-groups" ∷ join (codes ":") (stack_groups openssl request) ∷ [])
        ++ push_if
            (not (is_empty request.sig_algs))
            (codes "-sigalgs" ∷ join (codes ":") request.sig_algs ∷ []))
    → Carries flag values (openssl_args request)
unfolding openssl_args
openssl_args-Carries flag values request h =
    Carries-append flag values
      (codes "s_client"
        ∷ codes "-connect"
        ∷ connect_arg request
        ∷ codes "-servername"
        ∷ sni request
        ∷ codes "-showcerts"
        ∷ codes "-ign_eof"
        ∷ [])
      _ (Carries-append flag values (push_if _ (codes "-tls1_3" ∷ [])) _ h)

-- Where the request offers a group and a signature algorithm and none of them has a colon, the
-- arguments of OpenSSL's client have, after `-groups`, a text that gives back the offered groups in
-- OpenSSL's spelling, in their order, when it is split at the colons, and after `-sigalgs` one that
-- gives back the signature algorithms; those of BoringSSL's client have the groups after `-curves`.
pub args-Carries :
    (request : ProbeRequest)
    → request.kem_groups ≢ []
    → request.sig_algs ≢ []
    → All (Free b':') request.kem_groups
    → All (Free b':') request.sig_algs
    → Carries
        (codes "-groups")
        (map (stack_group openssl) request.kem_groups)
        (openssl_args request)
      × Carries (codes "-sigalgs") request.sig_algs (openssl_args request)
      × Carries
          (codes "-curves")
          (map (stack_group boringssl) request.kem_groups)
          (boringssl_args request)
unfolding boringssl_args
args-Carries request g s gf sf = (
  openssl_args-Carries (codes "-groups") _ request (
      Carries-append_right _ _ _ _
        (groups-Carries openssl (codes "-groups") request.kem_groups g gf)),
  openssl_args-Carries (codes "-sigalgs") _ request (
      Carries-append _ _ _ _
        (push_if-Carries (codes "-sigalgs") request.sig_algs request.sig_algs s s sf)),
  Carries-append _ _
      (codes "client"
        ∷ codes "-connect"
        ∷ connect_arg request
        ∷ codes "-server-name"
        ∷ sni request
        ∷ [])
      _ (groups-Carries boringssl (codes "-curves") request.kem_groups g gf),
)
