-- ===== src/Adapter/Args.antt =====
-- The command lines of the clients and the request that they are fed
-- (adapters/cli/src/backend.rs).
pub mod Lists
use pqc_sec_inspection_cours.Prelude.{
  ℕ, Bool, true, false, not, ◌&&◌, Option, none, some, List, [], ◌∷◌, ◌++◌, any, head?, is_empty,
  length, ◌==◌, Text, codes, text_eq, join, show_nat, unwrap_or, if◌then◌else◌,
}
use pqc_sec_inspection_cours.Proto.{ProbeRequest}
use pqc_sec_inspection_cours.Adapter.Groups.{
  openssl, boringssl, wolfssl, is_classical_group, stack_group, stack_groups,
}

unfoldable pub sni : ProbeRequest → Text
sni request = unwrap_or request.target.host request.target.sni

unfoldable pub http_request_line : ProbeRequest → Text
http_request_line request =
    codes "GET "
    ++ (unwrap_or (codes "/") request.target.http_path
        ++ (codes " HTTP/1.1\r\nHost: "
            ++ (unwrap_or request.target.host request.target.sni
                ++ codes
                    "\r\nUser-Agent: pqcas-probe\r\nConnection: close\r\nAccept: */*\r\n\r\n")))

unfoldable pub connect_arg : ProbeRequest → Text
connect_arg request = request.target.host ++ (codes ":" ++ show_nat request.target.port)

-- `if test { args.push(…); … }`
abbrev pub push_if : Bool → List Text → List Text
push_if true more = more
push_if false more = []

unfoldable pub openssl_args : ProbeRequest → List Text
openssl_args request =
    (codes "s_client"
      ∷ codes "-connect"
      ∷ connect_arg request
      ∷ codes "-servername"
      ∷ sni request
      ∷ codes "-showcerts"
      ∷ codes "-ign_eof"
      ∷ [])
    ++ (push_if
          (any (λ v. text_eq v (codes "TLSv1.3")) request.tls_versions
            && length request.tls_versions == 1)
          (codes "-tls1_3" ∷ [])
        ++ (push_if (not (is_empty request.kem_groups))
              (codes "-groups" ∷ join (codes ":") (stack_groups openssl request) ∷ [])
            ++ push_if (not (is_empty request.sig_algs))
                (codes "-sigalgs" ∷ join (codes ":") request.sig_algs ∷ [])))

unfoldable pub boringssl_args : ProbeRequest → List Text
boringssl_args request =
    (codes "client"
      ∷ codes "-connect"
      ∷ connect_arg request
      ∷ codes "-server-name"
      ∷ sni request
      ∷ [])
    ++ push_if (not (is_empty request.kem_groups))
        (codes "-curves" ∷ join (codes ":") (stack_groups boringssl request) ∷ [])

-- `.first().filter(|g| !is_classical_group(g))`
unfoldable pub pinned : List Text → Option Text
pinned [] = none
pinned (group ∷ _) = if is_classical_group group then none else some group

unfoldable pub pqc_args : Option Text → List Text
pqc_args none = []
pqc_args (some group) = codes "--pqc" ∷ stack_group wolfssl group ∷ []

unfoldable pub wolfssl_args : ProbeRequest → List Text
wolfssl_args request =
    (codes "-h"
      ∷ request.target.host
      ∷ codes "-p"
      ∷ show_nat request.target.port
      ∷ codes "-v"
      ∷ codes "4"
      ∷ codes "-S"
      ∷ sni request
      ∷ codes "-d"
      ∷ [])
    ++ (pqc_args (pinned request.kem_groups) ++ codes "-g" ∷ [])
