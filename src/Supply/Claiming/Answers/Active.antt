-- ===== src/Supply/Claiming/Answers/Active.antt =====
-- The active challenges of an e-mail address.
use offchain_service.Base.{
  ◌+◌, ◌≡◌, refl, sym, subst, ltb, Option, none, some, List, [], ◌∷◌, Text, Bool-cases, inl, inr,
  Result,
}
use offchain_service.Base.Dict.{lookup}
use offchain_service.Base.Numbers.{Numbers}
use offchain_service.Order.{Order, OrderStatus, locked, challenged, owned, set_status}
use offchain_service.Clearing.Database.{Reason, challenged_at, answered_at}
use offchain_service.Supply.Claiming.{
  Entry, ip_ban_threshold, attempts_of, is_banned, to_lower_case,
}
use offchain_service.Supply.Claiming.Addresses.{validate_email_address}
use offchain_service.Supply.Claiming.Challenges.{
  Challenge, Claims, deactivate, create_challenge, create_answer, fetch_challenge,
}
use offchain_service.Supply.Claiming.Steps.{
  ClaimPorts, report, transition, set_statuses, fetch_orders, filter_orders,
  generate_deactivation_hash, generate_verification_hash,
}
use offchain_service.Supply.Claiming.Answers.{
  send_mail, new_challenge, challenge_orders, execute_challenge, accept, answer_challenge,
  answer_signed, validate_answer, new_answer, orders_of, challenge_address, answer_address,
  answer_found, try_sign_orders, validate_answer_entry,
}
use offchain_service.Supply.Claiming.Challenges.Active.{
  AtMostOne, and_then-keeps, OneActive, deactivate-OneActive, deactivate-none,
  create_challenge-OneActive, create_answer_challenges, fetch_challenge_challenges,
}

module _ (n : Numbers) (ports : ClaimPorts n.F) where
  open n use {F}
  open ports use {up, now}

  report-OneActive : (e : Entry) (w : Claims F) → OneActive w → OneActive (report n ports e w)
  unfolding report
  report-OneActive e w h =
      elim (Bool-cases
        (ltb ip_ban_threshold (attempts_of (lookup e.client_ip w.attempts.errors) + 1))) [
          | inl b ↦ rw b (deactivate-OneActive up now _ _ h)
          | inr b ↦ rw b h
        ]

  set_statuses_challenges :
      (st : OrderStatus) (reason : Reason) (os : List (Order F)) (w : Claims F)
      → (set_statuses n ports st reason os w).0.challenges ≡ w.challenges
  unfolding set_statuses
  set_statuses_challenges st reason [] w = refl
  set_statuses_challenges st reason (o ∷ os) w =
      and_then-keeps (λ w'. w'.challenges ≡ w.challenges)
        (transition n ports reason (set_status st o) w) (λ _. set_statuses n ports st reason os)
        refl
        (λ a e.
          set_statuses_challenges st reason os (transition n ports reason (set_status st o) w).0)

  set_statuses-OneActive :
      (st : OrderStatus) (reason : Reason) (os : List (Order F)) (w : Claims F)
      → OneActive w
      → OneActive (set_statuses n ports st reason os w).0
  set_statuses-OneActive st reason os w h =
      subst AtMostOne (sym (set_statuses_challenges st reason os w)) h

  send_mail-OneActive :
      (address : Text) (w : Claims F) → OneActive w → OneActive (send_mail n ports address w).0
  send_mail-OneActive address w h = elim (Bool-cases ports.is_mailed) [
    | inl e ↦ rw e h
    | inr e ↦ rw e h
  ]

  challenge_orders-OneActive :
      (e : Entry) (address : Text) (os : List (Order F)) (w : Claims F)
      → OneActive w
      → OneActive (challenge_orders n ports e address os w).0
  challenge_orders-OneActive e address [] w h = report-OneActive e w h
  challenge_orders-OneActive e address (o ∷ os) w h =
      let hash = generate_deactivation_hash n ports address in
      let x = deactivate up now hash w in
      let hx = deactivate-OneActive up now hash w h in
      let y = create_challenge up now (new_challenge n ports e address o) x.0 in
      and_then-keeps OneActive x _ hx λ _ f.
        let hy =
          create_challenge-OneActive up now (new_challenge n ports e address o) x.0
            (deactivate-none up now hash w f) hx in
        and_then-keeps OneActive y _ hy λ c _.
          let z = set_statuses n ports challenged (challenged_at e.client_ip c.id) (o ∷ os) y.0 in
          let hz =
            set_statuses-OneActive challenged (challenged_at e.client_ip c.id) (o ∷ os) y.0 hy in
          and_then-keeps OneActive z _ hz λ _ _. send_mail-OneActive address z.0 hz

  fetch_orders-OneActive :
      (statuses : List OrderStatus) (w : Claims F)
      → OneActive w
      → OneActive (fetch_orders n ports statuses w).0
  fetch_orders-OneActive statuses w h = elim (Bool-cases (up w.tables.calls)) [
    | inl e ↦ rw e h
    | inr e ↦ rw e h
  ]

  challenge_address-OneActive :
      (e : Entry) (address : Text) (w : Claims F)
      → OneActive w
      → OneActive (challenge_address n ports e address w).0
  challenge_address-OneActive e address w h =
      let v : Claims F × Result (Unit {0}) = (w, validate_email_address address) in
      let x = fetch_orders n ports (locked ∷ challenged ∷ owned ∷ []) w in
      let hx = fetch_orders-OneActive (locked ∷ challenged ∷ owned ∷ []) w h in
      and_then-keeps OneActive v _ h λ _ _. and_then-keeps OneActive x _ hx λ orders _.
        let y = filter_orders n ports address orders x.0 in
        and_then-keeps OneActive y (challenge_orders n ports e address) hx
          λ found _. challenge_orders-OneActive e address found x.0 hx

  -- However a challenge ends, no address has two active challenges if none had before.
  pub execute_challenge-OneActive :
      (e : Entry) (w : Claims F) → OneActive w → OneActive (execute_challenge n ports e w).0
  unfolding execute_challenge
  execute_challenge-OneActive e w h = elim (Bool-cases (is_banned e.client_ip w.attempts)) [
    | inl b ↦ rw b h
    | inr b ↦ rw b (challenge_address-OneActive e (to_lower_case e.email_address) w h)
  ]

  accept-OneActive :
      (e : Entry) (hash : Text) (o : Order F) (signed : List (Order F × Text)) (c : Challenge)
      (w : Claims F)
      → OneActive w
      → OneActive (accept n ports e hash o signed c w).0
  accept-OneActive e hash o signed c w h =
      let x = create_answer up now (new_answer n ports e hash o c) w in
      let hx : OneActive x.0 =
        subst AtMostOne (sym (create_answer_challenges up now (new_answer n ports e hash o c) w))
          h in
      and_then-keeps OneActive x _ hx λ a _.
        let z =
          set_statuses n ports owned (answered_at c.id e.client_ip a.id) (orders_of n ports signed)
            x.0 in
        let hz =
          set_statuses-OneActive owned (answered_at c.id e.client_ip a.id)
            (orders_of n ports signed) x.0 hx in
        and_then-keeps OneActive z _ hz λ _ _. hz

  answer_challenge-OneActive :
      (e : Entry) (hash : Text) (o : Order F) (signed : List (Order F × Text))
      (found : Option Challenge) (w : Claims F)
      → OneActive w
      → OneActive (answer_challenge n ports e hash o signed found w).0
  answer_challenge-OneActive e hash o signed none w h = report-OneActive e w h
  answer_challenge-OneActive e hash o signed (some c) w h =
      elim (Bool-cases (ltb c.expires_at now)) [
        | inl b ↦ rw b (report-OneActive e w h)
        | inr b ↦ rw b (accept-OneActive e hash o signed c w h)
      ]

  answer_signed-OneActive :
      (e : Entry) (hash : Text) (signed : List (Order F × Text)) (w : Claims F)
      → OneActive w
      → OneActive (answer_signed n ports e hash signed w).0
  answer_signed-OneActive e hash [] w h = report-OneActive e w h
  answer_signed-OneActive e hash ((o, s) ∷ signed) w h =
      let x = fetch_challenge up now hash w in
      let hx : OneActive x.0 = subst AtMostOne (sym (fetch_challenge_challenges up now hash w)) h in
      and_then-keeps OneActive x _ hx
        λ found _. answer_challenge-OneActive e hash o ((o, s) ∷ signed) found x.0 hx

  answer_address-OneActive :
      (e : Entry) (address : Text) (w : Claims F)
      → OneActive w
      → OneActive (answer_address n ports e address w).0
  answer_address-OneActive e address w h =
      let v : Claims F × Result Text = (w, validate_answer_entry n ports e address) in
      let x = fetch_orders n ports (challenged ∷ []) w in
      let hx = fetch_orders-OneActive (challenged ∷ []) w h in
      and_then-keeps OneActive v _ h λ code _.
        let hash = generate_verification_hash n ports address code in
        and_then-keeps OneActive x _ hx λ orders _.
          let y = filter_orders n ports address orders x.0 in
          and_then-keeps OneActive y (answer_found n ports e hash) hx
            λ found _. answer_signed-OneActive e hash (try_sign_orders n ports e found) x.0 hx

  -- However an answer ends, no address has two active challenges if none had before.
  pub validate_answer-OneActive :
      (e : Entry) (w : Claims F) → OneActive w → OneActive (validate_answer n ports e w).0
  unfolding validate_answer
  validate_answer-OneActive e w h = elim (Bool-cases (is_banned e.client_ip w.attempts)) [
    | inl b ↦ rw b h
    | inr b ↦ rw b (answer_address-OneActive e (to_lower_case e.email_address) w h)
  ]
