-- ===== src/Apis/ApplyCode/Usable.antt =====
-- models/robots.go and apis/apply_code.go: which robots can give a code, and which one is asked.
use mathlib.Core.Logic.{ite, if_pos, if_neg}
use mathlib.Core.Path.{subst}
use zhiya.Prelude.{
  ℕ, zero, suc, ◌<◌, ◌≡◌, ◌↔◌, ◌≢◌, ◌⊎◌, inl, inr, refl, sym, ap, ◌∙◌, Bool, true, false, Option,
  none, some, List, [], ◌∷◌, arith, length, get_elem?, if◌then◌else◌, some-eq-some,
}
use zhiya.Apis.ApplyCode.{
  Robot, Failure, no_valid_robots, CodeData, RobotApplyCode, error_my_id, panics, created,
  not_stored, usable, find_valid_robot, find_valid_code_robot, code_robots, some_robots, prefer,
  send_robot, exists_code, new_code, take_code, request_code, with_robots, without_code,
  fetch_apply_code,
}

module _ {Text : Type 0} (used_today : Text → ℕ) (limit : ℕ) where
  abbrev pub CanGive : Robot Text → Type 0
  CanGive r = (r.status ≡ 10) × (used_today r.serial_no < limit)

  keep :
      (r : Robot Text) (robots : List (Robot Text))
      → CanGive r
      → usable used_today limit (r ∷ robots) ≡ r ∷ usable used_today limit robots
  unfolding usable
  keep r robots h = ground arith

  usable-cases :
      (r : Robot Text) (robots : List (Robot Text))
      → (CanGive r × (usable used_today limit (r ∷ robots) ≡ r ∷ usable used_today limit robots))
        ⊎ (usable used_today limit (r ∷ robots) ≡ usable used_today limit robots)
  unfolding usable
  usable-cases r robots = ground arith

  usable_sound :
      (robots : List (Robot Text)) (k : ℕ) (r : Robot Text)
      → get_elem? (usable used_today limit robots) k ≡ some r
      → CanGive r × ((j : ℕ) × (get_elem? robots j ≡ some r))
  unfolding usable
  usable_sound [] k r h = cc
  usable_sound (x ∷ robots) k r h = elim (usable-cases x robots) [
    | inl (can, e) ↦ at_front k (ap (λ l. get_elem? l k) (sym e) ∙ h) can (usable_sound robots)
    | inr e ↦
        let (can, (j, there)) = usable_sound robots k r (ap (λ l. get_elem? l k) (sym e) ∙ h) in
        (can, (suc j, there))
  ]
    where
      at_front :
          (k : ℕ)
          → get_elem? (x ∷ usable used_today limit robots) k ≡ some r
          → CanGive x
          → ((k : ℕ) (r : Robot Text)
              → get_elem? (usable used_today limit robots) k ≡ some r
              → CanGive r × ((j : ℕ) × (get_elem? robots j ≡ some r)))
          → CanGive r × ((j : ℕ) × (get_elem? (x ∷ robots) j ≡ some r))
      at_front zero h can later =
          let same : x ≡ r = some-eq-some h in (subst CanGive same can, (zero, h))
      at_front (suc k) h can later = let (can', (j, there)) = later k r h in (can', (suc j, there))

  usable_complete :
      (robots : List (Robot Text)) (j : ℕ) (r : Robot Text)
      → get_elem? robots j ≡ some r
      → CanGive r
      → (k : ℕ) × (get_elem? (usable used_today limit robots) k ≡ some r)
  usable_complete [] j r h can = cc
  usable_complete (x ∷ robots) zero r h can =
      let same : x ≡ r = some-eq-some h in
      (zero, ap (λ l. get_elem? l zero) (keep x robots (subst CanGive (sym same) can)) ∙ h)
  usable_complete (x ∷ robots) (suc j) r h can =
      let (k, e) = usable_complete robots j r h can in
      elim (usable-cases x robots) [
        | inl (_, e') ↦ (suc k, ap (λ l. get_elem? l (suc k)) e' ∙ e)
        | inr e' ↦ (k, ap (λ l. get_elem? l k) e' ∙ e)
      ]

present : {A : Type 0} (l : List A) (k : ℕ) → k < length l → (a : A) × (get_elem? l k ≡ some a)
present [] k h = absurd (omega arith)
present (x ∷ l) zero h = (x, refl)
present (x ∷ l) (suc k) h = present l k (omega arith)

module _ {Text : Type 0} (dec : Discrete Text) where
  prefer_cases :
      (wanted picked : Text) (robots : List (Robot Text))
      → (prefer dec wanted picked robots ≡ wanted) ⊎ (prefer dec wanted picked robots ≡ picked)
  unfolding prefer
  prefer_cases wanted picked [] = inr refl
  prefer_cases wanted picked (r ∷ robots) = elim (dec r.serial_no wanted) [
    | yes p ↦ inl (rw (prefer, if_pos (dec r.serial_no wanted) p) p)
    | no p ↦ rw (prefer, if_neg (dec r.serial_no wanted) p) (prefer_cases wanted picked robots)
  ]

  prefer_wanted :
      (wanted picked : Text) (robots : List (Robot Text)) (j : ℕ) (w : Robot Text)
      → get_elem? robots j ≡ some w
      → w.serial_no ≡ wanted
      → prefer dec wanted picked robots ≡ wanted
  unfolding prefer
  prefer_wanted wanted picked [] j w h e = cc
  prefer_wanted wanted picked (r ∷ robots) zero w h e =
      let p : r.serial_no ≡ wanted = ap (λ (x : Robot Text). x.serial_no) (some-eq-some h) ∙ e in
      rw (prefer, if_pos (dec r.serial_no wanted) p) p
  prefer_wanted wanted picked (r ∷ robots) (suc j) w h e = elim (dec r.serial_no wanted) [
    | yes p ↦ rw (prefer, if_pos (dec r.serial_no wanted) p) p
    | no p ↦
        rw (prefer, if_neg (dec r.serial_no wanted) p) (prefer_wanted wanted picked robots j w h e)
  ]

  -- With a rand.Intn that gives a number below its argument, and a robot of the wanted number among
  -- the robots: that robot is asked.
  pub send_robot_wanted :
      (intn : ℕ → ℕ)
      → ((n : ℕ) → 0 < n → intn n < n)
      → (wanted : Text) (robots : List (Robot Text)) (j : ℕ) (w : Robot Text)
      → get_elem? robots j ≡ some w
      → w.serial_no ≡ wanted
      → send_robot dec intn wanted robots ≡ some wanted
  unfolding send_robot
  send_robot_wanted intn below wanted [] j w h e = cc
  send_robot_wanted intn below wanted (x ∷ robots) j w h e =
      let (r, found) = present (x ∷ robots) (intn (suc (length robots))) (below _ (omega arith)) in
      rw (send_robot, found) (ap some (prefer_wanted wanted r.serial_no (x ∷ robots) j w h e))

module _ {Text : Type 0} (find_robots : Text → Option (List Text))
    (query : List Text → List (Robot Text) × Bool) (used_today : Text → ℕ) where
  -- Without an error the robots are those that can give a code, and there is one.
  without_error :
      (limit : ℕ) (r : List (Robot Text) × Option Failure) (robots : List (Robot Text))
      → code_robots used_today limit r ≡ (robots, none)
      → (r.1 ≡ none) × (robots ≡ usable used_today limit r.0) × (0 < length robots)
  unfolding code_robots some_robots
  without_error limit (l, some e) robots h = let gone : some e ≡ none = ap (λ t. t.1) h in cc
  without_error limit (l, none) robots h =
      let (same, pos) = given (usable used_today limit l) h in (refl, same, pos)
    where
      given :
          (l : List (Robot Text))
          → some_robots used_today limit l ≡ (robots, none)
          → (robots ≡ l) × (0 < length robots)
      given [] h = let gone : some no_valid_robots ≡ none = ap (λ t. t.1) h in cc
      given (r ∷ l) h =
          let same : r ∷ l ≡ robots = ap (λ t. t.0) h in
          (sym same, subst (λ t. 0 < length t) same (omega arith))

  -- Without an error, each robot that FindValidCodeRobotByMyId returns is one of FindValidRobotByMyId,
  -- in state 10, and has used fewer codes today than the limit.
  pub find_valid_code_robot_sound :
      (my_id : Text) (limit : ℕ) (robots : List (Robot Text)) (k : ℕ) (r : Robot Text)
      → find_valid_code_robot find_robots query used_today my_id limit ≡ (robots, none)
      → get_elem? robots k ≡ some r
      → (r.status ≡ 10)
        × (used_today r.serial_no < limit)
        × ((j : ℕ) × (get_elem? (find_valid_robot find_robots query my_id).0 j ≡ some r))
  unfolding find_valid_code_robot
  find_valid_code_robot_sound my_id limit robots k r h found =
      let (none_failed, same, pos) =
        without_error limit (find_valid_robot find_robots query my_id) robots h in
      let (can, there) =
        usable_sound used_today limit (find_valid_robot find_robots query my_id).0 k r
          (ap (λ l. get_elem? l k) (sym same) ∙ found) in
      (can.0, can.1, there)

  -- Every robot of FindValidRobotByMyId in state 10 and below the limit is returned, if that has no
  -- error itself.
  pub find_valid_code_robot_complete :
      (my_id : Text) (limit : ℕ) (j : ℕ) (r : Robot Text)
      → (find_valid_robot find_robots query my_id).1 ≡ none
      → get_elem? (find_valid_robot find_robots query my_id).0 j ≡ some r
      → r.status ≡ 10
      → used_today r.serial_no < limit
      → (k : ℕ) × (find_valid_code_robot find_robots query used_today my_id limit
          ≡ (usable used_today limit (find_valid_robot find_robots query my_id).0, none))
        × (get_elem? (usable used_today limit (find_valid_robot find_robots query my_id).0) k
            ≡ some r)
  unfolding find_valid_code_robot
  find_valid_code_robot_complete my_id limit j r fine there ten below =
      let (k, e) =
        usable_complete used_today limit (find_valid_robot find_robots query my_id).0 j r there
          (ten, below) in
      (k, of_valid (find_valid_robot find_robots query my_id) fine k e, e)
    where
      of_list :
          (l : List (Robot Text)) (k : ℕ)
          → get_elem? l k ≡ some r
          → some_robots used_today limit l ≡ (l, none)
      of_list [] k e = cc
      of_list (x ∷ l) k e = unfold some_robots in refl

      of_valid :
          (v : List (Robot Text) × Option Failure)
          → v.1 ≡ none
          → (k : ℕ) → get_elem? (usable used_today limit v.0) k ≡ some r
          → code_robots used_today limit v ≡ (usable used_today limit v.0, none)
      of_valid (l, some e) fine k h = cc
      of_valid (l, none) fine k h = unfold code_robots in of_list (usable used_today limit l) k h

module _ {Text Time : Type 0} (dec : Discrete Text) (blank ten : Text)
    (codes : Text → Text → Option (List (RobotApplyCode Text Time)))
    (codes_of : Text → Text → Text → Option (List (RobotApplyCode Text Time)))
    (find_robots : Text → Option (List Text)) (query : List Text → List (Robot Text) × Bool)
    (used_today : Text → ℕ) (limit_of : Text → ℕ) (intn : ℕ → ℕ)
    (apply : Text → Option (List (CodeData Text))) (parse : Text → Time)
    (store : RobotApplyCode Text Time → Bool) where
  take_code-panics :
      (my_id sub_id : Text) (o : Option (List (CodeData Text)))
      → take_code dec blank ten codes codes_of
          (find_valid_code_robot find_robots query used_today)
          limit_of
          intn
          apply
          parse
          store
          my_id
          sub_id
          o
        ≡ panics
      → o ≡ some []
  unfolding take_code
  take_code-panics my_id sub_id none h = absurd (cc)
  take_code-panics my_id sub_id (some []) h = refl
  take_code-panics my_id sub_id (some (d ∷ ds)) h =
      absurd
        (stored (new_code parse ten d my_id sub_id) (store (new_code parse ten d my_id sub_id)) h)
    where
      stored :
          (code : RobotApplyCode Text Time) (b : Bool)
          → (if b then created code else not_stored code) ≢ panics
      stored code true e = cc
      stored code false e = cc

  with_robots-panics :
      ((n : ℕ) → 0 < n → intn n < n)
      → (my_id sub_id robot : Text) (robots : List (Robot Text)) → 0 < length robots
      → with_robots dec blank ten codes codes_of
          (find_valid_code_robot find_robots query used_today)
          limit_of
          intn
          apply
          parse
          store
          my_id
          sub_id
          robot
          (robots, none)
        ≡ panics
      → (serial : Text) × (send_robot dec intn robot robots ≡ some serial)
        × (apply serial ≡ some [])
  unfolding with_robots request_code
  with_robots-panics below my_id sub_id robot robots some_robot h =
      let (r, found) = present robots (intn (length robots)) (below (length robots) some_robot) in
      let serial = prefer dec robot r.serial_no robots in
      let sent : send_robot dec intn robot robots ≡ some serial =
        unfold send_robot in rw (send_robot, found) refl in
      (
        serial,
        sent,
        take_code-panics my_id sub_id (apply serial) (
            sym (
              ap
                (request_code dec blank ten codes codes_of
                  (find_valid_code_robot find_robots query used_today) limit_of intn apply parse
                  store my_id sub_id)
                sent)
            ∙ h),
      )

  without_code-panics :
      ((n : ℕ) → 0 < n → intn n < n)
      → (my_id sub_id robot limit : Text) (o : Option (RobotApplyCode Text Time))
      → without_code dec blank ten codes codes_of
          (find_valid_code_robot find_robots query used_today)
          limit_of
          intn
          apply
          parse
          store
          my_id
          sub_id
          robot
          limit
          o
        ≡ panics
      → (o ≡ none)
        × ((robots : List (Robot Text)) × (serial : Text) × (find_valid_code_robot find_robots query
                used_today my_id
                (ite (dec limit blank) 10 (limit_of limit))
              ≡ (robots, none))
            × (send_robot dec intn robot robots ≡ some serial)
            × (apply serial ≡ some []))
  unfolding without_code with_robots
  without_code-panics below my_id sub_id robot limit (some code) h = absurd (cc)
  without_code-panics below my_id sub_id robot limit none h = (
    refl,
    chosen
        (find_valid_code_robot find_robots query used_today my_id
          (ite (dec limit blank) 10 (limit_of limit)))
        refl h,
  )
    where
      chosen :
          (v : List (Robot Text) × Option Failure)
          → find_valid_code_robot find_robots query used_today my_id
              (ite (dec limit blank) 10 (limit_of limit))
            ≡ v
          → with_robots dec blank ten codes codes_of
              (find_valid_code_robot find_robots query used_today)
              limit_of
              intn
              apply
              parse
              store
              my_id
              sub_id
              robot
              v
            ≡ panics
          → (robots : List (Robot Text)) × (serial : Text) × (find_valid_code_robot find_robots
                query used_today my_id
                (ite (dec limit blank) 10 (limit_of limit))
              ≡ (robots, none))
            × (send_robot dec intn robot robots ≡ some serial)
            × (apply serial ≡ some [])
      chosen (robots, some e) same h = absurd (cc)
      chosen (robots, none) same h =
          let (_, _, full) =
            without_error find_robots query used_today (ite (dec limit blank) 10 (limit_of limit))
              (find_valid_robot find_robots query my_id) robots
              (unfold find_valid_code_robot in same) in
          let (serial, sent, empty) = with_robots-panics below my_id sub_id robot robots full h in
          (robots, serial, same, sent, empty)

  -- With a rand.Intn that gives a number below its argument: FetchApplyCode panics exactly where
  -- the supplier is known, no code is there already, the robots are found, and the service answers
  -- the request for the chosen robot without an error and without a code.
  pub fetch_apply_code-eq-panics_iff :
      ((n : ℕ) → 0 < n → intn n < n)
      → (my_id sub_id robot limit : Text)
      → (fetch_apply_code dec blank ten codes codes_of
            (find_valid_code_robot find_robots query used_today)
            limit_of
            intn
            apply
            parse
            store
            my_id
            sub_id
            robot
            limit
          ≡ panics)
        ↔ ((my_id ≢ blank)
            × (exists_code dec blank ten codes codes_of
                  (find_valid_code_robot find_robots query used_today)
                  limit_of
                  intn
                  apply
                  parse
                  store
                  my_id
                  sub_id
                  robot
                ≡ none)
            × ((robots : List (Robot Text)) × (serial : Text) × (find_valid_code_robot find_robots
                    query used_today my_id
                    (ite (dec limit blank) 10 (limit_of limit))
                  ≡ (robots, none))
                × (send_robot dec intn robot robots ≡ some serial)
                × (apply serial ≡ some [])))
  unfolding fetch_apply_code
  fetch_apply_code-eq-panics_iff below my_id sub_id robot limit = (
    λ h. elim (dec my_id blank) [
      | yes p ↦
          let refused : error_my_id ≡ panics =
            sym (rw (fetch_apply_code, if_pos (dec my_id blank) p) refl) ∙ h in
          absurd (cc)
      | no p ↦
          let (gone, there) =
            without_code-panics below my_id sub_id robot limit
              (exists_code dec blank ten codes codes_of
                (find_valid_code_robot find_robots query used_today) limit_of intn apply parse store
                my_id sub_id robot)
              (sym (rw (fetch_apply_code, if_neg (dec my_id blank) p) refl) ∙ h) in
          (p, gone, there)
    ],
    λ (p, gone, (robots, serial, found, sent, empty)).
        if_neg (dec my_id blank) p _ _
        ∙ ap
            (without_code dec blank ten codes codes_of
              (find_valid_code_robot find_robots query used_today) limit_of intn apply parse store
              my_id sub_id robot limit)
            gone
        ∙ unfold without_code in
          ap
            (with_robots dec blank ten codes codes_of
              (find_valid_code_robot find_robots query used_today) limit_of intn apply parse store
              my_id sub_id robot)
            found
          ∙ unfold with_robots in
            ap
              (request_code dec blank ten codes codes_of
                (find_valid_code_robot find_robots query used_today) limit_of intn apply parse store
                my_id sub_id)
              sent
            ∙ unfold request_code in
              ap
                (take_code dec blank ten codes codes_of
                  (find_valid_code_robot find_robots query used_today) limit_of intn apply parse
                  store my_id sub_id)
                empty
              ∙ unfold take_code in refl,
  )
