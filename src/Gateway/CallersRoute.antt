-- ===== src/Gateway/CallersRoute.antt =====
-- About the route that lists the callers of a symbol: the whole handler.
use codetrail.Prelude.{false, eqb, ℕ, ◌+◌, ◌≤◌, true, ◌≡◌, ◌⊎◌, List, [], Bytes, Result, ok, err}
use codetrail.Models.{Repo}
use codetrail.Store.Callers.{Caller}
use codetrail.Rag.Cite.{Outside, Newer}
use codetrail.Gateway.Read.{Handler, lookup_repo}
use codetrail.Gateway.Symbols.{approximate}
use codetrail.Gateway.Views.{
  SymbolStore, Refusal, empty_name, bad_suffix, bad_limit, bad_depth, no_symbol, failed, missing,
  CallersResponse, caller_view,
}
use codetrail.Gateway.Cited.{Unread, AreViews}
use codetrail.Gateway.Shown.{IsClipped, IsOutside, ApproximateOutcome}

module _ {F E : Type 0} (o : Outside) (h : Handler F E) (s : SymbolStore E)
    (repo_param symbol_param depth_param limit_param : Bytes) where
  -- What a response shows, for the repository and the symbol of the route.
  pub record ShowsCallers (resp : CallersResponse) (touched : Bytes) : Type 0 where
    pub repo : Repo
    pub newer : Newer
    pub limit : ℕ
    pub rows : List Caller
    pub shown : List Caller
    pub repo_found : lookup_repo h repo_param ≡ ok repo
    pub symbol_found : s.symbol repo.id symbol_param ≡ ok resp.symbol
    pub newer_found : h.newer_commit repo.id ≡ ok newer
    pub own_repo : (resp.repo_id ≡ repo.id) × (touched ≡ repo.id)
    pub depth_bounds : (1 ≤ resp.depth) × (resp.depth ≤ 3)
    pub limit_bounds : (1 ≤ limit) × (limit ≤ 50)
    pub from_store : s.callers_of repo.id resp.symbol.id resp.depth (limit + 1) ≡ ok rows
    pub clipped : IsClipped limit rows shown resp.truncated
    pub views : AreViews o h s repo newer (λ cl. cl.symbol) caller_view shown resp.callers
    pub approximated : ApproximateOutcome o h s repo newer resp.symbol limit (ok resp.approximate)

  -- A read of the route that fails, for another reason than that there is no symbol.
  abbrev pub ReadFails : Repo → E → Type 0
  ReadFails r e =
      ((s.symbol r.id symbol_param ≡ err e) × (h.is_not_found e ≡ false))
      ⊎ (((id : Bytes) × (depth : ℕ) × (limit : ℕ) × (s.callers_of r.id id depth limit ≡ err e))
          ⊎ ((h.newer_commit r.id ≡ err e) ⊎ Unread s r e))

  abbrev pub CallersReply : Result Refusal (CallersResponse × Bytes) → Type 0
  CallersReply (ok (resp, touched)) = ShowsCallers resp touched
  CallersReply (err empty_name) = ⊥
  CallersReply (err bad_suffix) = ⊥
  CallersReply (err bad_limit) = (eqb limit_param [] ≡ false) × IsOutside 50 (s.atoi limit_param)
  CallersReply (err bad_depth) = (eqb depth_param [] ≡ false) × IsOutside 3 (s.atoi depth_param)
  CallersReply (err no_symbol) =
      (r : Repo) × (e : E) × (s.symbol r.id symbol_param ≡ err e) × (h.is_not_found e ≡ true)
  CallersReply (err (missing m)) = lookup_repo h repo_param ≡ err m
  CallersReply (err failed) =
      (r : Repo) × (e : E) × (lookup_repo h repo_param ≡ ok r) × ReadFails r e
