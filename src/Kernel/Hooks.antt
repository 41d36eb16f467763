-- ===== src/Kernel/Hooks.antt =====
-- ppos-core-aux.c: the hooks that the kernel calls and that do nothing. Their arguments, the task or
-- the object that the call is about, are not used. The messages of a debug build are left out.
use ping_pong_so.Base.Int.{pos, ℤ}
use ping_pong_so.Kernel.State.{K, give}

-- The hooks without a result.
pub data SilentHook : Type 0 where
  before_task_create before_task_exit : SilentHook
  after_task_switch : SilentHook
  before_task_yield after_task_yield : SilentHook
  before_task_suspend after_task_suspend : SilentHook
  before_task_resume after_task_resume : SilentHook
  before_task_sleep after_task_sleep : SilentHook

unfoldable pub silent_hook : SilentHook → K (Unit {0})
silent_hook h = give tt

-- The hooks with a result, by the objects that they are about. A result of 0 lets the call go on.
pub data JoinHook : Type 0 where
  before_task_join after_task_join : JoinHook

unfoldable pub join_hook : JoinHook → K ℤ
join_hook h = give (pos 0)

pub data SemHook : Type 0 where
  before_sem_create after_sem_create : SemHook
  before_sem_down after_sem_down : SemHook
  before_sem_up after_sem_up : SemHook
  before_sem_destroy after_sem_destroy : SemHook

unfoldable pub sem_hook : SemHook → K ℤ
sem_hook h = give (pos 0)

pub data MutexHook : Type 0 where
  before_mutex_create after_mutex_create : MutexHook
  before_mutex_lock after_mutex_lock : MutexHook
  before_mutex_unlock after_mutex_unlock : MutexHook
  before_mutex_destroy after_mutex_destroy : MutexHook

unfoldable pub mutex_hook : MutexHook → K ℤ
mutex_hook h = give (pos 0)

pub data BarrierHook : Type 0 where
  before_barrier_create after_barrier_create : BarrierHook
  before_barrier_join after_barrier_join : BarrierHook
  before_barrier_destroy after_barrier_destroy : BarrierHook

unfoldable pub barrier_hook : BarrierHook → K ℤ
barrier_hook h = give (pos 0)

pub data MqueueHook : Type 0 where
  before_mqueue_create after_mqueue_create : MqueueHook
  before_mqueue_send after_mqueue_send : MqueueHook
  before_mqueue_recv after_mqueue_recv : MqueueHook
  before_mqueue_destroy after_mqueue_destroy : MqueueHook
  before_mqueue_msgs after_mqueue_msgs : MqueueHook

unfoldable pub mqueue_hook : MqueueHook → K ℤ
mqueue_hook h = give (pos 0)
