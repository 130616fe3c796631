-- ===== src/Mcp/Registry.antt =====
-- internal/mcp/mcp.go: the tools of a server, registered and listed.
use unwedge.Base.{
  ◌≡◌, refl, sym, ap, ◌∙◌, Bytes, false, none, some, List, [], ◌∷◌, ◌++◌, map, All, eqb, eqb_iff,
  eqb_refl, Bool-cases, Option-cases, inl, inr,
}
use unwedge.Mcp.{
  Tool, Server, new_server, find_tool, put_tool, add_tool, spec_of, spec_named, tools_list,
}

eqb_sym : (s t : Bytes) → eqb s t ≡ false → eqb t s ≡ false
eqb_sym s t h = elim (Bool-cases (eqb t s)) [
  | inl e ↦ absurd (cc (h, (eqb_iff s t).1 (sym ((eqb_iff t s).0 e))))
  | inr e ↦ e
]

module _ {W : Type 0} where
  -- The tools of a list registered in turn.
  abbrev pub add_all : List (Tool W) → Server W → Server W
  add_all [] s = s
  add_all (t ∷ ts) s = add_all ts (add_tool t s)

  -- The same on a list of tools: each in the place of the one with its name, or at the end.
  abbrev pub put_all : List (Tool W) → List (Tool W) → List (Tool W)
  put_all [] us = us
  put_all (t ∷ ts) us = put_all ts (put_tool t us)

  abbrev Differs : Tool W → Tool W → Type 0
  Differs t u = eqb u.name t.name ≡ false

  abbrev Distinct : List (Tool W) → Type 0
  Distinct [] = Unit
  Distinct (t ∷ ts) = All (Differs t) ts × Distinct ts

  names : List (Tool W) → List Bytes
  names = map (λ t. t.name)

  All-put_tool :
      (P : Tool W → Type 0) (t : Tool W) (us : List (Tool W))
      → P t
      → All P us
      → All P (put_tool t us)
  unfolding put_tool
  All-put_tool P t [] p h = (p, tt)
  All-put_tool P t (u ∷ us) p h = elim (Bool-cases (eqb u.name t.name)) [
    | inl e ↦ rw e (p, h.1)
    | inr e ↦ rw e (h.0, All-put_tool P t us p h.1)
  ]

  All-weaken :
      (P Q : Tool W → Type 0) (us : List (Tool W))
      → ((u : Tool W) → P u → Q u)
      → All P us
      → All Q us
  All-weaken P Q [] f h = tt
  All-weaken P Q (u ∷ us) f h = (f u h.0, All-weaken P Q us f h.1)

  Distinct-put_tool : (t : Tool W) (us : List (Tool W)) → Distinct us → Distinct (put_tool t us)
  unfolding put_tool
  Distinct-put_tool t [] d = (tt, tt)
  Distinct-put_tool t (u ∷ us) d = elim (Bool-cases (eqb u.name t.name)) [
    | inl e ↦
        let same : u.name ≡ t.name = (eqb_iff u.name t.name).0 e in
        rw e
          (All-weaken (Differs u) (Differs t) us (λ v h. ap (eqb v.name) (sym same) ∙ h) d.0, d.1)
    | inr e ↦
        rw e
          (All-put_tool (Differs u) t us (eqb_sym u.name t.name e) d.0, Distinct-put_tool t us d.1)
  ]

  -- A tool is found under its name.
  abbrev FoundIn : List (Tool W) → Tool W → Type 0
  FoundIn ts t = find_tool t.name ts ≡ some t

  Distinct-FoundIn : (ts : List (Tool W)) → Distinct ts → All (FoundIn ts) ts
  unfolding find_tool
  Distinct-FoundIn [] d = tt
  Distinct-FoundIn (t ∷ ts) d = (rw (eqb_refl t.name) refl, later ts d.0 (Distinct-FoundIn ts d.1))
    where
      later :
          (us : List (Tool W))
          → All (Differs t) us
          → All (FoundIn ts) us
          → All (FoundIn (t ∷ ts)) us
      later [] a b = tt
      later (u ∷ us) a b = (rw (eqb_sym u.name t.name a.0) b.0, later us a.1 b.1)

  specs_named :
      (ts us : List (Tool W))
      → All (FoundIn ts) us
      → map (spec_named ts) (names us) ≡ map spec_of us
  unfolding spec_named names
  specs_named ts [] h = refl
  specs_named ts (u ∷ us) h = rw (spec_named, h.0) (ap (λ l. spec_of u ∷ l) (specs_named ts us h.1))

  names-put_tool :
      (t : Tool W) (us : List (Tool W))
      → names (put_tool t us) ≡ elim (find_tool t.name us) as (λ o. List Bytes) [
        | none ↦ names us ++ t.name ∷ []
        | some u ↦ names us
      ]
  unfolding names put_tool find_tool
  names-put_tool t [] = refl
  names-put_tool t (u ∷ us) =
      let ih = names-put_tool t us in
      elim (Bool-cases (eqb u.name t.name)) [
        | inl e ↦ rw e (ap (λ n. n ∷ names us) (sym ((eqb_iff u.name t.name).0 e)))
        | inr e ↦ elim (Option-cases (find_tool t.name us)) [
          | inl f ↦ rw (e, f) (ap (λ l. u.name ∷ l) (rw f at ih))
          | inr (v, f) ↦ rw (e, f) (ap (λ l. u.name ∷ l) (rw f at ih))
        ]
      ]

  -- The order lists the tools of the map, each of another name.
  abbrev IsRegistry : Server W → Type 0
  IsRegistry s = (s.order ≡ names s.tools) × Distinct s.tools

  add_tool-IsRegistry : (t : Tool W) (s : Server W) → IsRegistry s → IsRegistry (add_tool t s)
  unfolding add_tool
  add_tool-IsRegistry t s h = (
    ap
          (λ l. elim (find_tool t.name s.tools) as (λ o. List Bytes) [
            | none ↦ l ++ t.name ∷ []
            | some u ↦ l
          ])
          h.0
        ∙ sym (names-put_tool t s.tools),
    Distinct-put_tool t s.tools h.1,
  )

  tools_list-IsRegistry : (s : Server W) → IsRegistry s → tools_list s ≡ map spec_of s.tools
  unfolding tools_list
  tools_list-IsRegistry s h =
      ap (map (spec_named s.tools)) h.0 ∙ specs_named s.tools s.tools (Distinct-FoundIn s.tools h.1)

  listed_from :
      (ts : List (Tool W)) (s : Server W)
      → IsRegistry s
      → tools_list (add_all ts s) ≡ map spec_of (put_all ts s.tools)
  unfolding add_tool
  listed_from [] s h = tools_list-IsRegistry s h
  listed_from (t ∷ ts) s h = listed_from ts (add_tool t s) (add_tool-IsRegistry t s h)

  -- However tools are registered, also several of one name, tools/list shows each name once, in the
  -- order of first registration, with the tool that was registered last: the same list as that of a
  -- registry that is nothing but a list of tools.
  pub tools_list-add_all :
      (ts : List (Tool W)) (name version : Bytes)
      → tools_list (add_all ts (new_server name version)) ≡ map spec_of (put_all ts [])
  unfolding new_server names
  tools_list-add_all ts name version = listed_from ts (new_server name version) (refl, tt)
