-- ===== src/Costs.antt =====
-- The costs of jobs: openeogeotrellis/integrations/etl_api.py and openeogeotrellis/job_costs_calculator.py.
pub mod Config
pub mod Api
pub mod Calculator
