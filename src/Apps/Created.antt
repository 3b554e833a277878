-- ===== src/Apps/Created.antt =====
-- `add_app` of src/pake_apps/api.rs, on every branch.
use selkies_core.Prelude.{
  has_visible, is_empty-trim, same, if◌then◌else◌, unwrap_or, subst, Bool-cases, ◌≡◌, refl, ◌∙◌, ap,
  Bool, true, false, ◌&&◌, Option, none, some, Text, codes, is_empty, is_some, Result, ok, err,
  Option-cases, inl, inr, same_refl, same_iff, arith,
}
use selkies_core.Apps.{
  AppType, AppMode, type_from_str, PakeApp, EnvCodec, StoreError, Sql, not_empty, app_to_row, add,
  if_inserted, get,
}
use selkies_core.Apps.Rows.{Lossless, stored, row_to_app-app_to_row}
use selkies_core.Apps.Spec.{Lawful}
use selkies_core.Apps.Handlers.{
  Body, Reply, created, bad_request, conflict, not_blank, app_type_of, app_of, mode_of, new_app,
  added, add_if, add_app,
}

-- The text is there, and is not all white space.
abbrev pub is_filled : Option Text → Bool
is_filled none = false
is_filled (some s) = has_visible s

-- A request is for a desktop application when it says so, and else for a web application.
abbrev pub wants_desktop : Option Text → Bool
wants_desktop none = false
wants_desktop (some s) = same s (codes "desktop")

abbrev pub wanted_type : {Env : Type 0} → Body Env → AppType
wanted_type body =
    if wants_desktop (body.get_str (codes "app_type")) then AppType.desktop_app else AppType.web_app

-- What the type of an application needs.
abbrev pub needed : AppType → Text
needed AppType.web_app = codes "url"
needed AppType.desktop_app = codes "exec_command"

-- The body has a name and what its type needs, and neither is blank.
abbrev pub is_acceptable : {Env : Type 0} → Body Env → Bool
is_acceptable body =
    is_filled (body.get_str (codes "name")) && is_filled (body.get_str (needed (wanted_type body)))

is_some-not_blank : (o : Option Text) → is_some (not_blank o) ≡ is_filled o
is_some-not_blank none = refl
is_some-not_blank (some s) = ground (arith, is_empty-trim s)

unwrapped_type :
    (o : Option Text)
    → unwrap_or (type_from_str (unwrap_or o (codes "webapp"))) AppType.web_app
      ≡ (if wants_desktop o then AppType.desktop_app else AppType.web_app)
unfolding type_from_str same
unwrapped_type none = refl
unwrapped_type (some s) = elim (Bool-cases (same s (codes "webapp"))) [
  | inl e ↦ let at : s ≡ codes "webapp" = (same_iff s (codes "webapp")).0 e in rw at refl
  | inr e ↦ elim (Bool-cases (same s (codes "desktop"))) [
    | inl d ↦ rw (e, d) refl
    | inr d ↦ rw (e, d) refl
  ]
]

app_type_of_lem : {Env : Type 0} (body : Body Env) → app_type_of body ≡ wanted_type body
unfolding app_type_of
app_type_of_lem body = unwrapped_type (body.get_str (codes "app_type"))

abbrev pub HasText : Option Text → Type 0
HasText none = ⊥
HasText (some t) = is_empty t ≡ false

-- A web application has an address and a mode and no command; a desktop application has a command.
abbrev pub IsCompleteAs : {Env : Type 0} → AppType → PakeApp Env → Type 0
IsCompleteAs AppType.web_app app =
    HasText app.url × (is_some app.mode ≡ true) × (app.exec_command ≡ none)
IsCompleteAs AppType.desktop_app app =
    HasText app.exec_command × (app.mode ≡ none) × (app.url ≡ none)

abbrev pub IsComplete : {Env : Type 0} → PakeApp Env → Type 0
IsComplete app = (is_empty app.name ≡ false) × IsCompleteAs app.app_type app

abbrev Made : {Env : Type 0} → Text → AppType → Bool → Result Text (PakeApp Env) → Type 0
Made id t acceptable (ok app) =
    (acceptable ≡ true) × IsComplete app × (app.id ≡ id) × (app.app_type ≡ t)
Made id t acceptable (err e) = acceptable ≡ false

not_blank-HasText : (o : Option Text) (t : Text) → not_blank o ≡ some t → is_empty t ≡ false
not_blank-HasText none t h = cc
not_blank-HasText (some s) t h = ground arith

mode_of-is_some : (m : Option AppMode) → is_some (mode_of m) ≡ true
mode_of-is_some none = refl
mode_of-is_some (some m) = refl

app_of-Made :
    {Env : Type 0} (t : AppType) (id now name : Text) (body : Body Env)
    → is_empty name ≡ false
    → Made id t (is_some (not_blank (body.get_str (needed t)))) (app_of t id now name body)
unfolding app_of
app_of-Made AppType.web_app id now name body h =
    elim (Option-cases (not_blank (body.get_str (codes "url")))) [
      | inl e ↦ rw e refl
      | inr (t, e) ↦
          rw e (refl, (h, (not_blank-HasText _ t e, mode_of-is_some _, refl)), refl, refl)
    ]
app_of-Made AppType.desktop_app id now name body h =
    elim (Option-cases (not_blank (body.get_str (codes "exec_command")))) [
      | inl e ↦ rw e refl
      | inr (t, e) ↦ rw e (refl, (h, (not_blank-HasText _ t e, refl, refl)), refl, refl)
    ]

-- The code's own test, and that it is the same.
abbrev passes_checks : {Env : Type 0} → Body Env → Bool
passes_checks body =
    is_some (not_blank (body.get_str (codes "name")))
    && is_some (not_blank (body.get_str (needed (app_type_of body))))

passes_checks_lem : {Env : Type 0} (body : Body Env) → passes_checks body ≡ is_acceptable body
passes_checks_lem body =
    rw
      (
        app_type_of_lem body,
        is_some-not_blank (body.get_str (codes "name")),
        is_some-not_blank (body.get_str (needed (wanted_type body))),
      )
      refl

checked-Made :
    {Env : Type 0} (id now : Text) (body : Body Env)
    → Made id (app_type_of body) (passes_checks body) (new_app id now body)
unfolding new_app
checked-Made id now body = elim (Option-cases (not_blank (body.get_str (codes "name")))) [
  | inl e ↦ rw e refl
  | inr (t, e) ↦ rw e (app_of-Made (app_type_of body) id now t body (not_blank-HasText _ t e))
]

new_app-Made :
    {Env : Type 0} (id now : Text) (body : Body Env)
    → Made id (wanted_type body) (is_acceptable body) (new_app id now body)
new_app-Made id now body =
    subst (λ t. Made id t (is_acceptable body) (new_app id now body)) (app_type_of_lem body)
      (subst (λ b. Made id (app_type_of body) b (new_app id now body)) (passes_checks_lem body)
        (checked-Made id now body))

-- Texts that are not blank are stored as they are.
not_empty-HasText : (o : Option Text) → HasText o → not_empty o ≡ o
not_empty-HasText none h = refl
not_empty-HasText (some t) h = rw h refl

stored_complete :
    {Env : Type 0} (t : AppType) (app : PakeApp Env) → IsCompleteAs t app → stored app ≡ app
stored_complete AppType.web_app app (url, mode, no_exec) =
    rw (not_empty-HasText app.url url, no_exec) refl
stored_complete AppType.desktop_app app (exec, mode, no_url) =
    rw (not_empty-HasText app.exec_command exec, no_url) refl

module _ {Env S : Type 0} (codec : EnvCodec Env) (sql : Sql S) where
  -- What a reply to a body promises of the store before and after.
  abbrev pub Promises : Text → Body Env → S → Reply Env → S → Type 0
  Promises id body s (created app) s' =
      (is_acceptable body ≡ true)
      × IsComplete app
      × (app.id ≡ id)
      × (app.app_type ≡ wanted_type body)
      × (get codec sql id s ≡ none)
      × (get codec sql id s' ≡ some app)
  Promises id body s (bad_request message) s' = (is_acceptable body ≡ false) × (s' ≡ s)
  Promises id body s (conflict e) s' = (is_acceptable body ≡ true) × (s' ≡ s)
  Promises id body s _ s' = ⊥

  module _ (lossless : Lossless codec) (lawful : Lawful sql) where
    get-inserted :
        (app : PakeApp Env) (s s' : S)
        → IsComplete app
        → sql.insert (app_to_row codec app) s ≡ ok s'
        → (get codec sql app.id s ≡ none) × (get codec sql app.id s' ≡ some app)
    unfolding get app_to_row
    get-inserted app s s' complete done =
        let (absent, found) = lawful.inserted (app_to_row codec app) s s' app.id done in
        (
          rw (absent (same_refl app.id)) refl,
          rw (found, same_refl app.id)
              (ap some (
                row_to_app-app_to_row codec lossless app
                ∙ stored_complete app.app_type app complete.1)),
        )

    inserted-Promises :
        (id : Text) (body : Body Env) (app : PakeApp Env) (s : S) (r : Result StoreError S)
        → sql.insert (app_to_row codec app) s ≡ r
        → Made id (wanted_type body) (is_acceptable body) (ok app)
        → Promises id body s (added app (if_inserted r s)).0 (added app (if_inserted r s)).1
    inserted-Promises id body app s (err e) h made = (made.0, refl)
    inserted-Promises id body app s (ok s') h (acceptable, complete, at, kind) =
        let (absent, found) = get-inserted app s s' complete h in
        (acceptable, complete, at, kind, rw (← at) absent, rw (← at) found)

    Made-Promises :
        (id : Text) (body : Body Env) (s : S) (r : Result Text (PakeApp Env))
        → Made id (wanted_type body) (is_acceptable body) r
        → Promises id body s (add_if codec sql r s).0 (add_if codec sql r s).1
    unfolding add_if add
    Made-Promises id body s (err message) made = (made, refl)
    Made-Promises id body s (ok app) made =
        inserted-Promises id body app s (sql.insert (app_to_row codec app) s) refl made

    -- A request to add an application is answered in one of three ways. It is refused as bad, and
    -- the store is as it was, exactly when its name, or the address or the command that its type
    -- needs, is missing or nothing but white space; the type is the desktop's when the request says
    -- so, and the web's otherwise. Otherwise either the store refuses it and is as it was, or the
    -- application is created: it is complete and of that type, its id was free, and the store gives
    -- it back as it is in the reply. SQLite keeps its laws, and the codec of the environment loses
    -- nothing.
    pub add_app-Promises :
        (id now : Text) (body : Body Env) (s : S)
        → Promises id body s (add_app codec sql id now body s).0 (add_app codec sql id now body s).1
    unfolding add_app
    add_app-Promises id now body s =
        Made-Promises id body s (new_app id now body) (new_app-Made id now body)
