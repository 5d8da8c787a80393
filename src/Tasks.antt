-- ===== src/Tasks.antt =====
-- seekbase/struct/task.py and seekbase/service/task_service.py: operation handles and their log.
pub mod Record
pub mod Log
pub mod Drive
pub mod Results
pub mod Trip
pub mod Life
pub mod Recent
pub mod Newest
pub mod Wait
