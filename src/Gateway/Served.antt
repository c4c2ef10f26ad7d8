-- ===== src/Gateway/Served.antt =====
-- About the route that answers: what every request gets, and what it costs.
use codetrail.Prelude.{◌≡◌, Option, List, [], Bytes, ok}
use codetrail.Prelude.Int.{ℤ}
use codetrail.Prelude.Floats.{Floats}
use codetrail.Prelude.Utf8.{Unicode}
use codetrail.Models.{Repo}
use codetrail.Rag.Cite.{Outside}
use codetrail.Gateway.Read.{Answerer, SearchRequest, Handler, query, answerer}
use codetrail.Gateway.Answering.{Reply, Effect, named_answerer}
use codetrail.Gateway.Honest.{reply_outcomes, IsServed}

-- A request that is refused before a question is asked has no effect.
abbrev pub Rejected : {F : Type 0} → Reply F × List Effect → Type 0
Rejected x = (x.1 ≡ []) × (reply_outcomes x.0 ≡ 0)

module _ {F E : Type 0} (fl : Floats F) (u : Unicode) (to_lower trim_space : Bytes → Bytes)
    (o : Outside) (h : Handler F E) where
  -- The request names a repository that is there, and its question and answerer are in order.
  abbrev pub Served : Bytes → Option (SearchRequest F) → Reply F × List Effect → Type 0
  Served id body x =
      (r : Repo) × (q : Bytes × ℤ) × (want : Answerer) × (h.get_repo id ≡ ok r)
      × (query u to_lower trim_space body h.budget.max_spans ≡ ok q)
      × (answerer h (named_answerer body) ≡ ok want)
      × IsServed fl o h r (h.search r.id q.0 q.1).0 q.0 want x
