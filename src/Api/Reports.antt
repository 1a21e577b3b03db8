-- ===== src/Api/Reports.antt =====
-- The calls of frontend/src/api/reports.ts.
use why_not_grace_pos.Prelude.{[], ◌∷◌}
use why_not_grace_pos.Api.Calls.{Call, call, Params, word, staff, get}

abbrev pub sales : Params → Call
sales params = record (call staff get (word "reports" ∷ word "sales" ∷ [])) { params = params }

abbrev pub orders : Params → Call
orders params = record (call staff get (word "reports" ∷ word "orders" ∷ [])) { params = params }

abbrev pub payments : Params → Call
payments params = record (call staff get (word "reports" ∷ word "payments" ∷ [])) {
  params = params;
}

abbrev pub top_items : Params → Call
top_items params = record (call staff get (word "reports" ∷ word "top-items" ∷ [])) {
  params = params;
}

abbrev pub categories : Params → Call
categories params = record (call staff get (word "reports" ∷ word "categories" ∷ [])) {
  params = params;
}

abbrev pub channels : Params → Call
channels params = record (call staff get (word "reports" ∷ word "channels" ∷ [])) {
  params = params;
}
