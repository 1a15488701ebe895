-- ===== src/Config.antt =====
-- The constants of include/config.h.
use concurrent_request_orche.Base.{ℕ, Bool, true}
use concurrent_request_orche.Base.Int.{ℤ, negsuc}

abbrev pub consumer_count_min : ℕ
consumer_count_min = 1

abbrev pub consumer_count_max : ℕ
consumer_count_max = 5

abbrev pub paper_capacity_min : ℕ
paper_capacity_min = 50

abbrev pub paper_capacity_max : ℕ
paper_capacity_max = 200

abbrev pub job_arrival_time_min : ℕ
job_arrival_time_min = 200

abbrev pub job_arrival_time_max : ℕ
job_arrival_time_max = 800

abbrev pub min_arrival_time_min : ℕ
min_arrival_time_min = 200

abbrev pub min_arrival_time_max : ℕ
min_arrival_time_max = 400

abbrev pub max_arrival_time_min : ℕ
max_arrival_time_min = 500

abbrev pub max_arrival_time_max : ℕ
max_arrival_time_max = 800

abbrev pub min_papers_min : ℕ
min_papers_min = 5

abbrev pub min_papers_max : ℕ
min_papers_max = 10

abbrev pub max_papers_min : ℕ
max_papers_min = 15

abbrev pub max_papers_max : ℕ
max_papers_max = 30

abbrev pub autoscale_cooldown_us : ℕ
autoscale_cooldown_us = 3_000_000

abbrev pub autoscale_scale_down_wait_us : ℕ
autoscale_scale_down_wait_us = 5_000_000

abbrev pub autoscale_idle_timeout_us : ℕ
autoscale_idle_timeout_us = 5_000_000

abbrev pub autoscale_scale_down_threshold : ℕ
autoscale_scale_down_threshold = 5

abbrev pub autoscale_threshold_2_printers : ℕ
autoscale_threshold_2_printers = 10

abbrev pub autoscale_threshold_3_printers : ℕ
autoscale_threshold_3_printers = 15

abbrev pub autoscale_threshold_4_printers : ℕ
autoscale_threshold_4_printers = 20

-- The rates are doubles that happen to be whole; pages or papers per second.
abbrev pub default_print_rate : ℕ
default_print_rate = 5

abbrev pub default_consumer_count : ℕ
default_consumer_count = 2

abbrev pub default_auto_scaling : Bool
default_auto_scaling = true

abbrev pub default_refill_rate : ℕ
default_refill_rate = 25

abbrev pub default_paper_capacity : ℕ
default_paper_capacity = 150

abbrev pub default_job_arrival_time : ℕ
default_job_arrival_time = 500

abbrev pub default_job_count : ℕ
default_job_count = 20

abbrev pub default_fixed_arrival : Bool
default_fixed_arrival = true

abbrev pub default_min_arrival_time : ℕ
default_min_arrival_time = 300

abbrev pub default_max_arrival_time : ℕ
default_max_arrival_time = 600

abbrev pub default_max_queue : ℤ
default_max_queue = negsuc 0

abbrev pub default_min_papers : ℕ
default_min_papers = 5

abbrev pub default_max_papers : ℕ
default_max_papers = 15

abbrev pub default_show_time : Bool
default_show_time = true

abbrev pub default_show_stats : Bool
default_show_stats = true

abbrev pub default_show_logs : Bool
default_show_logs = true

abbrev pub default_show_components : Bool
default_show_components = true

abbrev pub print_rate_min : ℕ
print_rate_min = 4

abbrev pub print_rate_max : ℕ
print_rate_max = 10

abbrev pub refill_rate_min : ℕ
refill_rate_min = 15

abbrev pub refill_rate_max : ℕ
refill_rate_max = 30
