-- ===== src/Extension/Found.antt =====
-- What the listings of servers answer as a whole.
use skyline_apiserver_extens.Common.{
  String, ◌≡◌, refl, sym, ap, subst, Bool, true, false, Option, none, some, List, [], ◌∷◌, ◌==◌,
  ◌⊎◌, inl, inr, Bool-cases, Option-cases,
}
use skyline_apiserver_extens.Common.Dict.{Dict}
use skyline_apiserver_extens.Common.Int.{ℤ, ◌+ℤ◌}
use skyline_apiserver_extens.Runtime.{Result, ok, err, ok-injective}
use skyline_apiserver_extens.Roles.{RoleConf}
use skyline_apiserver_extens.World.{World, M, steps, ◌>>=◌, ◌>>◌, pure, lift, ask}
use skyline_apiserver_extens.World.Reads.{
  Reads, Reads-ask, Reads-pure, Reads-lift, Reads-bind, Reads-option, bind-ok,
}
use skyline_apiserver_extens.Profile.{Profile}
use skyline_apiserver_extens.Extension.{
  Services, Session, user, system, Server, ServerQuery, ServerSearch, ImageMeta, Row, given, enrich,
  name_or_none, project_id_name_map,
}
use skyline_apiserver_extens.Extension.Servers.{
  Scope, effective, found_project, find_project, search_found, plain_row, recycled_row, row_at,
  recycled_options, plain_options, join, named_or_raise, named_or_none, search_plain,
  search_recycled, list_servers, list_recycle_servers,
}
use skyline_apiserver_extens.Extension.Rows.{
  Shown, RowsOf, IsRow, Shown-same, enrich_all-RowsOf, name_or_raise-RowsOf, name_or_none-RowsOf,
  fetch_all-Reads,
}

module _ (roles : RoleConf) (services : Services) (interval : ℤ) where
  plain_row-IsRow :
      (all : Bool) (images : Dict (Option String × Option String)) (metas : Dict ImageMeta)
      → IsRow all (plain_row roles services interval all images metas)
  unfolding IsRow plain_row enrich
  plain_row-IsRow all images metas s r e =
      let same = sym (ok-injective e) in
      (
        ap (λ x. x.server) same,
        Shown-same all (enrich all images metas none s) r (ap (λ x. x.server) same)
            (ap (λ x. x.host) same) refl,
      )

  row_at-row :
      (all : Bool) (images : Dict (Option String × Option String)) (metas : Dict ImageMeta)
      (s : Server) (at : Result ℤ) (r : Row)
      → row_at roles services interval all images metas s at ≡ ok r
      → (r.server ≡ s) × Shown all r
  unfolding row_at enrich
  row_at-row all images metas s (err x) r e = cc
  row_at-row all images metas s (ok t) r e =
      let same = sym (ok-injective e) in
      (
        ap (λ x. x.server) same,
        Shown-same all (enrich all images metas (some (t +ℤ interval)) s) r
            (ap (λ x. x.server) same) (ap (λ x. x.host) same) refl,
      )

  recycled_row-IsRow :
      (all : Bool) (images : Dict (Option String × Option String)) (metas : Dict ImageMeta)
      → IsRow all (recycled_row roles services interval all images metas)
  unfolding IsRow recycled_row
  recycled_row-IsRow all images metas s r e = row_at-row all images metas s _ r e

  join-Reads :
      (f : Dict (Option String × Option String) → Dict ImageMeta → Server → Result Row)
      (servers : List Server)
      → Reads (join roles services interval f servers)
  unfolding join
  join-Reads f servers =
      Reads-bind (fetch_all-Reads _ _)
        (λ images. Reads-bind (fetch_all-Reads _ _) (λ volumes. Reads-lift _))

  join-RowsOf :
      (all : Bool) (f : Dict (Option String × Option String) → Dict ImageMeta → Server → Result Row)
      → ((images : Dict (Option String × Option String)) (metas : Dict ImageMeta)
          → IsRow all (f images metas))
      → (servers : List Server) (w : World) (rows : List Row)
      → (join roles services interval f servers w).0 ≡ ok rows
      → RowsOf all servers rows
  unfolding join lift
  join-RowsOf all f h servers w rows e =
      let a = bind-ok (fetch_all-Reads services.list_images _) _ w rows e in
      let b = bind-ok (fetch_all-Reads services.list_volumes _) _ w rows a.2 in
      enrich_all-RowsOf all _ (h _ _) servers rows b.2

  named_or_raise-RowsOf :
      (all : Bool) (ss : List Server) (rows named : List Row) (w : World)
      → (named_or_raise roles services interval all rows w).0 ≡ ok named
      → RowsOf all ss rows
      → RowsOf all ss named
  unfolding named_or_raise lift pure
  named_or_raise-RowsOf false ss rows named w e h = subst (RowsOf false ss) (ok-injective e) h
  named_or_raise-RowsOf true ss rows named w e h =
      name_or_raise-RowsOf true _ ss rows named (bind-ok (Reads-ask _) _ w named e).2 h

  named_or_none-RowsOf :
      (all : Bool) (ss : List Server) (rows named : List Row) (w : World)
      → (named_or_none roles services interval all rows w).0 ≡ ok named
      → RowsOf all ss rows
      → RowsOf all ss named
  unfolding named_or_none pure
  named_or_none-RowsOf false ss rows named w e h = subst (RowsOf false ss) (ok-injective e) h
  named_or_none-RowsOf true ss rows named w e h =
      let a =
        bind-ok (Reads-ask (λ v. services.list_projects v user true none))
          (λ projects. pure (name_or_none (project_id_name_map projects []) rows)) w named e in
      subst (RowsOf true ss) (ok-injective a.2) (name_or_none-RowsOf true _ ss rows h)

  -- Nova found the servers of the rows by that search.
  abbrev pub Found : World → Session → Bool → ServerSearch → List Row → Type 0
  Found w session all search rows =
      (servers : List Server) × (services.list_servers w session search ≡ ok servers)
      × RowsOf all servers rows

  search_plain-Found :
      (query : ServerQuery) (all : Bool) (id : Option String) (w : World) (rows : List Row)
      → (search_plain roles services interval query all id w).0 ≡ ok rows
      → Found w user all (plain_options query all id) rows
  unfolding search_plain ask
  search_plain-Found query all id w rows e =
      let a =
        bind-ok (Reads-ask (λ v. services.list_servers v user (plain_options query all id))) _ w
          rows e in
      let b = bind-ok (join-Reads (plain_row roles services interval all) a.0) _ w rows a.2 in
      (
        a.0,
        a.1,
        named_or_raise-RowsOf all a.0 b.0 rows w b.2 (
            join-RowsOf all (plain_row roles services interval all) (plain_row-IsRow all) a.0 w b.0
              b.1),
      )

  search_recycled-Found :
      (profile : Profile) (query : ServerQuery) (all : Bool) (id : Option String) (w : World)
      (rows : List Row)
      → (search_recycled roles services interval profile query all id w).0 ≡ ok rows
      → Found w system all (recycled_options profile query all id) rows
  unfolding search_recycled ask
  search_recycled-Found profile query all id w rows e =
      let a =
        bind-ok
          (Reads-ask (λ v. services.list_servers v system (recycled_options profile query all id)))
          _ w rows e in
      let b = bind-ok (join-Reads (recycled_row roles services interval all) a.0) _ w rows a.2 in
      (
        a.0,
        a.1,
        named_or_none-RowsOf all a.0 b.0 rows w b.2 (
            join-RowsOf all (recycled_row roles services interval all) (recycled_row-IsRow all) a.0
              w b.0 b.1),
      )

  find_project-Reads : (scope : Scope) → Reads (find_project roles services interval scope)
  unfolding find_project
  find_project-Reads scope =
      Reads-option (given scope.project_name) (Reads-pure _)
        (λ name. Reads-bind (Reads-ask _) (λ projects. Reads-pure _))

  -- What the name of a project stands for: nothing to look for, or the project to search in.
  abbrev pub Looked : Scope → World → Option (Option String) → Type 0
  Looked scope w found = (find_project roles services interval scope w).0 ≡ ok found

  -- Nothing was looked for since a name was given and Keystone knows no project by it that may be
  -- listed: none at all, or an id was given too and the first one has another.
  abbrev pub NoProject : Scope → World → Type 0
  NoProject scope w =
      (name : String) × (given scope.project_name ≡ some name)
      × (projects : List (String × String)) × (services.list_projects w system scope.all_projects
            (some name)
          ≡ ok projects)
      × ((projects ≡ [])
          ⊎ ((asked : String) × (first : String × String) × (rest : List (String × String))
              × (projects ≡ first ∷ rest)
              × (given scope.project_id ≡ some asked)
              × ((first.0 == asked) ≡ false)))

  -- The answer for a scope: no rows where there is no project, or else those of the search, by the
  -- id that was found for the name.
  abbrev pub Answered : Scope → World → (Option String → Type 0) → List Row → Type 0
  Answered scope w Searched rows =
      ((rows ≡ []) × NoProject scope w)
      ⊎ ((id : Option String) × Looked scope w (some id) × Searched id)

  found_project-none :
      (id : Option String) (projects : List (String × String))
      → found_project id projects ≡ none
      → (projects ≡ [])
        ⊎ ((asked : String) × (first : String × String) × (rest : List (String × String))
            × (projects ≡ first ∷ rest)
            × (given id ≡ some asked)
            × ((first.0 == asked) ≡ false))
  found_project-none id [] h = inl refl
  found_project-none none (p ∷ ps) h = cc
  found_project-none (some id) (p ∷ ps) h = elim (Option-cases (given (some id))) [
    | inl absent ↦ absurd (cc (rw (absent, found_project) at h))
    | inr (asked, sent) ↦ elim (Bool-cases (p.0 == asked)) [
      | inl same ↦ absurd (cc (rw (sent, same, found_project) at h))
      | inr differs ↦ inr (asked, p, ps, refl, sent, differs)
    ]
  ]

  -- what follows a name, or none
  abbrev asked_for : Scope → Option String → M (Option (Option String))
  asked_for scope o = elim o [
    | none ↦ pure (some scope.project_id)
    | some name ↦
        (ask (λ w. services.list_projects w system scope.all_projects (some name)) >>= λ projects.
        pure (found_project scope.project_id projects))
  ]

  asked_for-none :
      (scope : Scope) (w : World) (o : Option String)
      → given scope.project_name ≡ o
      → (asked_for scope o w).0 ≡ ok none
      → NoProject scope w
  unfolding steps
  asked_for-none scope w none named h = cc
  asked_for-none scope w (some name) named h =
      let a =
        bind-ok (Reads-ask (λ v. services.list_projects v system scope.all_projects (some name)))
          (λ projects. pure (found_project scope.project_id projects)) w none h in
      (name, named, a.0, a.1, found_project-none scope.project_id a.0 (ok-injective a.2))

  find_project-none : (scope : Scope) (w : World) → Looked scope w none → NoProject scope w
  unfolding find_project
  find_project-none scope w h = asked_for-none scope w (given scope.project_name) refl h

  search_found-Answered :
      (scope : Scope) (w : World) (Searched : Option String → Type 0) (rows : List Row)
      (search : Option String → M (List Row)) (found : Option (Option String))
      → Looked scope w found
      → ((id : Option String) → (search id w).0 ≡ ok rows → Searched id)
      → (search_found roles services interval search found w).0 ≡ ok rows
      → Answered scope w Searched rows
  unfolding pure
  search_found-Answered scope w Searched rows search none looked k e =
      inl (sym (ok-injective e), find_project-none scope w looked)
  search_found-Answered scope w Searched rows search (some id) looked k e = inr (id, looked, k id e)

  -- What both listings answer. No rows, where a project was asked for by its name and Keystone knows
  -- none by it, or none with the id that was given too; else the servers that one search of Nova
  -- found, for the project that was found, in Nova's order, each once, with the host shown only where
  -- all projects are listed.
  pub listings-Found :
      (profile : Profile) (scope : Scope) (query : ServerQuery) (w : World)
      (rows recycled : List Row)
      → (list_servers roles services interval profile scope query w).0 ≡ ok rows
      → (list_recycle_servers roles services interval profile scope query w).0 ≡ ok recycled
      → Answered
          (effective scope)
          w
          (λ id. Found w user scope.all_projects (plain_options query scope.all_projects id) rows)
          rows
        × Answered
            (effective scope)
            w
            (λ id.
              Found w system scope.all_projects
                (recycled_options profile query scope.all_projects id)
                recycled)
            recycled
  unfolding list_servers list_recycle_servers ◌>>◌
  listings-Found profile scope query w rows recycled e f =
      let a = bind-ok (Reads-lift _) _ w rows e in
      let b = bind-ok (Reads-ask _) _ w rows a.2 in
      let c = bind-ok (Reads-ask _) _ w rows b.2 in
      let d = bind-ok (find_project-Reads (effective scope)) _ w rows c.2 in
      let g = bind-ok (Reads-lift _) _ w recycled f in
      let h = bind-ok (Reads-ask _) _ w recycled g.2 in
      let i = bind-ok (Reads-ask _) _ w recycled h.2 in
      let j = bind-ok (find_project-Reads (effective scope)) _ w recycled i.2 in
      (
        search_found-Answered (effective scope) w _ rows _ d.0 d.1
            (λ id s. search_plain-Found query scope.all_projects id w rows s) d.2,
        search_found-Answered (effective scope) w _ recycled _ j.0 j.1
            (λ id s. search_recycled-Found profile query scope.all_projects id w recycled s) j.2,
      )
