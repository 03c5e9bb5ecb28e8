-- ===== src/Socks/Negotiate/Auth.antt =====
-- internal/socks/proto.go: who gets through the handshake.
use reversproxy.Base.{
  ℕ, ◌≡◌, ◌≢◌, refl, ◌∙◌, ◌⊎◌, inr, Bool, has, true, false, not, ◌&&◌, List, [], ◌∷◌, ◌++◌,
  if◌then◌else◌, ◌==◌, length, Str, is_empty, str_eq, str_eq_sound, subst, arith,
}
use mathlib.Core.List.{append_assoc}
use reversproxy.Base.Result.{Result, ok, err}
use reversproxy.Protocol.Validation.{ValidationError, validate_target}
use reversproxy.Socks.Negotiate.{
  Link, if_valid, check_target, connect, checked_command, request, maybe_authenticate,
  negotiate_socks5, auth_required, send_socks_reply, ◌>>=◌, ◌>>◌, done, fail, read_full, reply,
  byte, select_method, take_method, greet, check_password, authenticate, read_auth_methods,
  no_methods, bad_request_version, bad_command,
}
use reversproxy.Socks.Negotiate.Talks.{
  >>=_ok, branch_ok, Reads, read_full_ok, guard_ok, write_or_ok, >>-fail,
}

two_bytes : (b : List ℕ) → length b ≡ 2 → b ≡ byte b 0 ∷ byte b 1 ∷ []
two_bytes [] e = absurd (ground arith)
two_bytes (x ∷ []) e = absurd (ground arith)
two_bytes (x ∷ y ∷ []) e = refl
two_bytes (x ∷ y ∷ z ∷ b) e = absurd (ground arith)

one_byte : (b : List ℕ) → length b ≡ 1 → b ≡ byte b 0 ∷ []
one_byte [] e = absurd (ground arith)
one_byte (x ∷ []) e = refl
one_byte (x ∷ y ∷ b) e = absurd (ground arith)

-- Two parts that follow each other read what both read.
Reads-append : (a b : List ℕ) (l l1 l2 : Link) → Reads a l l1 → Reads b l1 l2 → Reads (a ++ b) l l2
Reads-append a b l l1 l2 first second = rw (first, second, append_assoc a b l2.input) refl

-- The greeting from its two parts.
greeting_read :
    (hdr methods : List ℕ) (l la lc l1 : Link)
    → (length hdr ≡ 2) × Reads hdr l la
    → byte hdr 0 == 5 ≡ true
    → (length methods ≡ byte hdr 1) × Reads methods la lc
    → l1.input ≡ lc.input
    → Reads (5 ∷ length methods ∷ methods) l l1
greeting_read hdr methods l la lc l1 (two, first) five (size, second) same =
    let both = Reads-append hdr methods l la lc first second in
    let front : hdr ≡ 5 ∷ length methods ∷ [] = two_bytes hdr two ∙ ground arith in
    subst (λ h. l.input ≡ (h ++ methods) ++ l1.input) front (rw same both)

-- The user name and the password from their four parts.
password_read :
    (user pass hdr given_user size given_pass : List ℕ) (l la lb lc ld l1 : Link)
    → (length hdr ≡ 2) × Reads hdr l la
    → not (byte hdr 0 == 1) ≡ false
    → (length given_user ≡ byte hdr 1) × Reads given_user la lb
    → (length size ≡ 1) × Reads size lb lc
    → (length given_pass ≡ byte size 0) × Reads given_pass lc ld
    → (str_eq given_user user && str_eq given_pass pass ≡ true) × (l1.input ≡ ld.input)
    → Reads ((1 ∷ length user ∷ user) ++ (length pass ∷ pass)) l l1
password_read user pass hdr given_user size given_pass l la lb lc ld l1 (two, r1) one (su, r2)
      (one_long, r3) (sp, r4) (both, same) =
    let user_same : given_user ≡ user = str_eq_sound _ _ (ground arith) in
    let pass_same : given_pass ≡ pass = str_eq_sound _ _ (ground arith) in
    let head : hdr ≡ 1 ∷ length user ∷ [] = two_bytes hdr two ∙ ground arith in
    let sized : size ≡ length pass ∷ [] = one_byte size one_long ∙ ground arith in
    let front =
      Reads-append (1 ∷ length user ∷ []) user l la lb (subst (λ h. Reads h l la) head r1)
        (subst (λ h. Reads h la lb) user_same r2) in
    let back =
      Reads-append (length pass ∷ []) pass lb lc ld (subst (λ h. Reads h lb lc) sized r3)
        (subst (λ h. Reads h lc ld) pass_same r4) in
    rw same (Reads-append (1 ∷ length user ∷ user) (length pass ∷ pass) l lb ld front back)

take_method_ok :
    (m a : ℕ) (l l1 : Link)
    → take_method m l ≡ (ok a, l1)
    → (a ≡ m) × (m == 255 ≡ false) × (l1.input ≡ l.input)
unfolding take_method done
take_method_ok m a l l1 p =
    branch_ok (m == 255) _ _ l l1 a p (λ _ q. absurd (>>-fail _ _ l l1 a q))
      (λ chosen q.
        >>=_ok _ _ l l1 a q
          (λ _ mid sent back. (ground arith, chosen, ground (arith, write_or_ok _ _ l mid sent))))

check_password_ok :
    (same : Bool) (l l1 : Link)
    → check_password same l ≡ (ok tt, l1)
    → (same ≡ true) × (l1.input ≡ l.input)
unfolding check_password
check_password_ok true l l1 p = (refl, write_or_ok _ _ l l1 p)
check_password_ok false l l1 p = absurd (>>-fail _ _ l l1 tt p)

pub greet_ok :
    (required : Bool) (m : ℕ) (l l1 : Link)
    → greet required l ≡ (ok m, l1)
    → (methods : List ℕ) × (m ≡ select_method required methods)
      × (m == 255 ≡ false)
      × Reads (5 ∷ length methods ∷ methods) l l1
unfolding greet
greet_ok required m l l1 p = >>=_ok _ _ l l1 m p (λ hdr la head p1.
    >>=_ok _ _ la l1 m p1 (λ _ lb version p2.
      branch_ok (byte hdr 1 == 0) (reply (5 ∷ 255 ∷ []) >> fail no_methods)
        (read_full read_auth_methods (byte hdr 1) >>= λ ms. take_method (select_method required ms))
        lb l1 m p2 (λ _ q. absurd (>>-fail (reply (5 ∷ 255 ∷ [])) no_methods lb l1 m q))
        (λ _ q. >>=_ok (read_full read_auth_methods (byte hdr 1)) _ lb l1 m q (λ methods lc body p3.
          let (chosen, accepted, same) = take_method_ok _ m lc l1 p3 in
          (
            methods,
            chosen,
            rw chosen accepted,
            greeting_read hdr methods l la lc l1 (read_full_ok _ _ l la hdr head)
                (guard_ok _ _ la lb version).0
                (rw (← (guard_ok _ _ la lb version).1)
                  (read_full_ok read_auth_methods _ lb lc methods body))
                same,
          )))))

pub authenticate_ok :
    (user pass : Str) (l l1 : Link)
    → authenticate user pass l ≡ (ok tt, l1)
    → Reads ((1 ∷ length user ∷ user) ++ (length pass ∷ pass)) l l1
unfolding authenticate
authenticate_ok user pass l l1 p = >>=_ok _ _ l l1 tt p (λ hdr la head p1.
    branch_ok _ _ _ la l1 tt p1 (λ _ q. absurd (>>-fail _ _ la l1 tt q))
      (λ version q. >>=_ok _ _ la l1 tt q (λ given_user lb got_user p2.
        >>=_ok _ _ lb l1 tt p2 (λ size lc got_size p3.
          >>=_ok _ _ lc l1 tt p3 (λ given_pass ld got_pass p4.
            password_read user pass hdr given_user size given_pass l la lb lc ld l1
              (read_full_ok _ _ l la hdr head) version (read_full_ok _ _ la lb given_user got_user)
              (read_full_ok _ _ lb lc size got_size) (read_full_ok _ _ lc ld given_pass got_pass)
              (check_password_ok _ ld l1 p4))))))

if_valid_ok :
    (ip_string : List ℕ → Str) (is_ip : Str → Bool) (r : Result ValidationError (Unit {0}))
    (host h : Str) (port p : ℕ) (l l1 : Link)
    → if_valid ip_string is_ip r host port l ≡ (ok (h, p), l1)
    → (r ≡ ok tt) × (h ≡ host) × (p ≡ port)
unfolding if_valid done
if_valid_ok ip_string is_ip (ok _) host h port p l l1 e = (refl, ground arith, ground arith)
if_valid_ok ip_string is_ip (err x) host h port p l l1 e = absurd (>>-fail _ _ l l1 _ e)

select_method_lem :
    (methods : List ℕ) → (select_method true methods ≡ 2) ⊎ (select_method true methods ≡ 255)
unfolding select_method
select_method_lem [] = inr refl
select_method_lem (m ∷ ms) = ground (arith, select_method_lem ms)

-- The password method is chosen only if it is among the methods.
select_method_offered : (methods : List ℕ) → select_method true methods ≡ 2 → has 2 methods ≡ true
unfolding select_method has
select_method_offered [] e = absurd (ground arith)
select_method_offered (m ∷ ms) e = ground (arith, select_method_offered ms)

auth_required_lem : (user pass : Str) → user ≢ [] → pass ≢ [] → auth_required user pass ≡ true
unfolding auth_required is_empty
auth_required_lem [] pass u p = absurd (u refl)
auth_required_lem (x ∷ user) [] u p = absurd (p refl)
auth_required_lem (x ∷ user) (y ∷ pass) u p = refl

module _ (ip_string : List ℕ → Str) (is_ip : Str → Bool) (h : Str) (p : ℕ) where
  connect-validate_target :
      (atyp : ℕ) (l l1 : Link)
      → connect ip_string is_ip atyp l ≡ (ok (h, p), l1)
      → validate_target is_ip h p 1 ≡ ok tt
  unfolding connect check_target
  connect-validate_target atyp l l1 e =
      >>=_ok _ _ l l1 (h, p) e
        (λ host la _ e1.
          >>=_ok _ _ la l1 (h, p) e1
            (λ port lb _ e2.
              let (fine, host_same, port_same) =
                if_valid_ok ip_string is_ip _ host h _ p lb l1 e2 in
              rw (host_same, port_same) fine))

  checked_command-validate_target :
      (cmd atyp : ℕ) (l l1 : Link)
      → checked_command ip_string is_ip cmd atyp l ≡ (ok (h, p), l1)
      → validate_target is_ip h p 1 ≡ ok tt
  unfolding checked_command
  checked_command-validate_target cmd atyp l l1 e =
      branch_ok (not (cmd == 1)) (send_socks_reply 7 >> fail bad_command)
        (connect ip_string is_ip atyp) l l1 (h, p) e
        (λ _ q. absurd (>>-fail (send_socks_reply 7) bad_command l l1 (h, p) q))
        (λ _ q. connect-validate_target atyp l l1 q)

  -- The request, if it succeeds, gives a target that has been validated.
  request-validate_target :
      (l l1 : Link)
      → request ip_string is_ip l ≡ (ok (h, p), l1)
      → validate_target is_ip h p 1 ≡ ok tt
  unfolding request
  request-validate_target l l1 e =
      >>=_ok _ _ l l1 (h, p) e
        (λ hdr la _ e1.
          branch_ok (not (byte hdr 0 == 5)) (send_socks_reply 1 >> fail bad_request_version)
            (checked_command ip_string is_ip (byte hdr 1) (byte hdr 3)) la l1 (h, p) e1
            (λ _ q. absurd (>>-fail (send_socks_reply 1) bad_request_version la l1 (h, p) q))
            (λ _ q. checked_command-validate_target (byte hdr 1) (byte hdr 3) la l1 q))

  -- With a user name and a password set, a handshake that succeeds began with a greeting that
  -- offers the password method and with exactly that name and that password, and its target
  -- has been validated.
  pub negotiate_socks5_authenticated :
      (user pass : Str) (l l1 : Link)
      → user ≢ []
      → pass ≢ []
      → negotiate_socks5 ip_string is_ip user pass l ≡ (ok (h, p), l1)
      → (validate_target is_ip h p 1 ≡ ok tt)
        × ((methods rest : List ℕ) × (has 2 methods ≡ true)
            × (l.input
                ≡ (5 ∷ length methods ∷ methods)
                  ++ ((1 ∷ length user ∷ user) ++ (length pass ∷ pass))
                  ++ rest))
  unfolding negotiate_socks5 maybe_authenticate
  negotiate_socks5_authenticated user pass l l1 some_user some_pass e =
      let required : auth_required user pass ≡ true =
        auth_required_lem user pass some_user some_pass in
      >>=_ok (greet (auth_required user pass)) _ l l1 (h, p) e
        (λ method la greeted e1.
          >>=_ok _ _ la l1 (h, p) e1
            (λ _ lb named e2.
              let (methods, chosen, accepted, first) =
                greet_ok true method l la (rw (← required) greeted) in
              let two : select_method true methods ≡ 2 =
                ground (arith, select_method_lem methods) in
              let second : Reads ((1 ∷ length user ∷ user) ++ (length pass ∷ pass)) la lb =
                authenticate_ok user pass la lb (
                  subst (λ m. (if m == 2 then authenticate user pass else done tt) la ≡ (ok tt, lb))
                    (chosen ∙ two) named) in
              (
                request-validate_target lb l1 e2,
                (
                  methods,
                  lb.input,
                  select_method_offered methods two,
                  Reads-append (5 ∷ length methods ∷ methods)
                      ((1 ∷ length user ∷ user) ++ (length pass ∷ pass)) l la lb first second,
                ),
              )))
