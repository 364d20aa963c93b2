-- ===== src/Router/Split/Returns.antt =====
-- When the optimizer returns a route.
